-- ===== src/Pop3/Retr/Output.antt =====
-- What `retr_action` of src/parser/pop3_parserADT.c sends for a mail that is not transformed.
use pdc_pop3d.Prelude.{
  ℕ, subst, sym, ◌<◌, zero, suc, ◌≤◌, ◌≡◌, refl, ap, ◌∙◌, Bool, true, false, Option, none, some,
  List, [], ◌∷◌, ◌++◌, arith, All, All-append, length, get_or, if◌then◌else◌, ℤ, pos, negsuc, ◌&&◌,
  ◌==◌, take, drop, length-append,
}
use pdc_pop3d.Numbers.{decimal}
use pdc_pop3d.Numbers.RoundTrip.{length-decimal}
use pdc_pop3d.CString.{Bytes, codes, crlf}
use pdc_pop3d.Socket.{max_bytes}
use pdc_pop3d.Pop3.Mail.{
  stuff_byte, stuff_chunk, stuff_file, stuffed, starts_or_follows, starts_or_not,
}
use pdc_pop3d.Pop3.Reply
use pdc_pop3d.Pop3.State.{Mail, MailStatus, retrieved, State, Env, M, ◌>>◌, pure, send_n, send_data}
use pdc_pop3d.Pop3.State.Send.{Ready, Sends, Sends-refl, Sends-trans, then_run, send_n-Sends}
use pdc_pop3d.Pop3.Actions.{no_mail, set_status}
use pdc_pop3d.Pop3.Actions.Reactions.{Reaction, Reacts, reply-Reacts}
use pdc_pop3d.Pop3.Actions.Marks.{marked, set_status-run}
use pdc_pop3d.Pop3.Retr.Body.{wire_form, stuffed-wire_form}
use pdc_pop3d.Pop3.Retr.{
  retr_path, retr_header, concat, send_each, transform_completion, plain_completion, retr_mail,
}

-- Every write of the loop is one byte.
abbrev OneByte : List Bytes → Type 0
OneByte = All (λ m. length m ≡ 1)

stuff_byte-OneByte : (prev : Option ℕ) (c : ℕ) → OneByte (stuff_byte prev c)
unfolding stuff_byte
stuff_byte-OneByte prev c =
    go (c == b'.' && starts_or_follows prev 10) (c == 10 && starts_or_not prev 13)
  where
    go :
        (dot cr : Bool)
        → OneByte (
            (if dot then (b'.' ∷ []) ∷ [] else [])
            ++ ((c ∷ []) ∷ [])
            ++ (if cr then (13 ∷ []) ∷ [] else []))
    go true true = omega arith
    go true false = omega arith
    go false true = omega arith
    go false false = omega arith

stuff_chunk-OneByte : (prev : Option ℕ) (cs : Bytes) → OneByte (stuff_chunk prev cs)
unfolding stuff_chunk
stuff_chunk-OneByte prev [] = tt
stuff_chunk-OneByte prev (c ∷ cs) =
    All-append (λ m. length m ≡ 1) (stuff_byte prev c) (stuff_chunk (some c) cs)
      (stuff_byte-OneByte prev c) (stuff_chunk-OneByte (some c) cs)

stuff_file-OneByte : (fuel : ℕ) (file : Bytes) → OneByte (stuff_file fuel file)
unfolding stuff_file
stuff_file-OneByte zero file = tt
stuff_file-OneByte (suc fuel) [] = tt
stuff_file-OneByte (suc fuel) (c ∷ cs) =
    let nonempty : (suc (length cs) == 0) ≡ false = ground arith in
    rw nonempty (
      All-append (λ m. length m ≡ 1) (stuff_chunk none (c ∷ take 1023 cs)) _
        (stuff_chunk-OneByte none (c ∷ take 1023 cs)) (stuff_file-OneByte fuel (drop 1023 cs)))

stuffed-OneByte : (file : Bytes) → OneByte (stuffed file)
unfolding stuffed
stuffed-OneByte file = stuff_file-OneByte (length file) file

retr_header_fits : (m : Mail) → length (retr_header m) ≤ max_bytes
unfolding retr_header
retr_header_fits m = omega (
  arith,
  length-decimal m.octets,
  length-append (decimal m.octets) (codes " octets"),
  length-append (decimal m.octets ++ codes " octets") crlf,
)

module _ {D : Type 0} (env : Env D) where
  send_each-Sends :
      (ms : List Bytes) (s : State D)
      → Ready env s
      → OneByte ms
      → (s' : State D) × (send_each env ms s ≡ some (tt, s')) × Sends env (concat ms) s s'
  unfolding send_each
  send_each-Sends [] s r h = (s, refl, Sends-refl env s r)
  send_each-Sends (m ∷ ms) s r h =
      let (s1, run1, sent1) = send_n-Sends env m s r (omega (arith, h.0)) in
      let (s2, run2, sent2) = send_each-Sends ms s1 sent1.ready h.1 in
      (
        s2,
        then_run (send_n env m) (send_each env ms) run1 ∙ run2,
        Sends-trans env m (concat ms) s s1 s2 sent1 sent2,
      )

  -- A mark on a mail stands beside what is sent.
  Sends-marked :
      (i : ℕ) (status : MailStatus) (text : Bytes) (s s' : State D)
      → Sends env text s s'
      → Sends env text (marked i status s) (marked i status s')
  Sends-marked i status text s s' h = record {
    ready = record { honest = h.ready.honest; reading = h.ready.reading; fresh = h.ready.fresh };
    all_sent = h.all_sent;
    same_closes = h.same_closes;
    counted = h.counted;
    frame = ap (marked i status) h.frame;
  }

  -- The sends and the mark of a retrieval.
  abbrev retrieval : ℕ → Mail → Bytes → M D ℤ
  retrieval i m file = do
    send_n env (retr_header m)
    send_each env (stuffed file)
    set_status i retrieved
    send_data env Reply.dot
    pure (pos 0)

  plain_completion-found :
      (path : Bytes) (i : ℕ) (m : Mail) (file : Bytes) (s : State D)
      → env.read_file s.shared.disk path ≡ some file
      → plain_completion env path i m s ≡ retrieval i m file s
  unfolding plain_completion
  plain_completion-found path i m file s e =
      ap (λ o. (elim o as (λ x. M D ℤ) [ none ↦ pure (negsuc 0) | some f ↦ retrieval i m f ]) s) e

  retr_mail-untransformed :
      (i : ℕ) (s : State D)
      → s.shared.conf.transformation ≡ false
      → retr_mail env i s
        ≡ plain_completion env
            (retr_path s.shared.conf s.conn.username (get_or s.conn.mails i no_mail))
            i
            (get_or s.conn.mails i no_mail)
            s
  unfolding retr_mail
  retr_mail-untransformed i s t =
      let m = get_or s.conn.mails i no_mail in
      let path = retr_path s.shared.conf s.conn.username m in
      ap
        (λ b.
          (if b
              then (do send_n env (retr_header m); transform_completion env path i)
              else plain_completion env path i m)
            s)
        t

  -- What RETR is to do for the mail `i`, whose file is given.
  abbrev pub retr_reaction : ℕ → Bytes → State D → Reaction D
  retr_reaction i file s = record {
    result = pos 0;
    text =
        (codes "+OK " ++ decimal (get_or s.conn.mails i no_mail).octets ++ codes " octets" ++ crlf)
        ++ wire_form none 0 file
        ++ (13 ∷ 10 ∷ b'.' ∷ 13 ∷ 10 ∷ []);
    next = marked i retrieved s;
  }

  -- RETR of a mail, with no transformation set and a file that can be read: the header with the
  -- size; the bytes of the file, read by 1024, with a dot doubled where a read starts or behind a
  -- line feed, and a carriage return behind each line feed that has none before it; and the final
  -- dot on a line of its own, all of them in order. The mail is then marked as retrieved. Nothing
  -- else changes but the count of bytes, the number of `send` calls and the cells of the write
  -- buffer. The mail is one of the array's, and the peer is taken to go on reading.
  pub retr_mail-Reacts :
      (i : ℕ) (file : Bytes) (s : State D)
      → Ready env s
      → i < length s.conn.mails
      → s.shared.conf.transformation ≡ false
      → env.read_file s.shared.disk
          (retr_path s.shared.conf s.conn.username (get_or s.conn.mails i no_mail))
        ≡ some file
      → Reacts env (retr_mail env i) s (retr_reaction i file s)
  unfolding retr_header
  retr_mail-Reacts i file s r l t e =
      let header = retr_header (get_or s.conn.mails i no_mail) in
      let body = concat (stuffed file) in
      let (s1, run1, sent1) =
        send_n-Sends env header s r (retr_header_fits (get_or s.conn.mails i no_mail)) in
      let (s2, run2, sent2) =
        send_each-Sends (stuffed file) s1 sent1.ready (stuffed-OneByte file) in
      let both = Sends-trans env header body s s1 s2 sent1 sent2 in
      let whole = Sends-marked i retrieved (header ++ body) s s2 both in
      let (s3, run3, sent3) =
        reply-Reacts env Reply.dot (pos 0) (marked i retrieved s2) whole.ready (omega arith)
          (omega arith) in
      let room : i < length s2.conn.mails =
        subst (λ x. i < length x.conn.mails) (sym both.frame) l in
      (
        s3,
        retr_mail-untransformed i s t
            ∙ plain_completion-found _ i (get_or s.conn.mails i no_mail) file s e
            ∙ then_run (send_n env header) _ run1
            ∙ then_run (send_each env (stuffed file)) _ run2
            ∙ then_run (set_status i retrieved) _ (set_status-run i retrieved s2 room)
            ∙ run3,
        subst (λ x. Sends env (header ++ x ++ Reply.dot) (marked i retrieved s) s3)
            (stuffed-wire_form file)
            (Sends-trans env (header ++ body) Reply.dot _ (marked i retrieved s2) s3 whole sent3),
      )
