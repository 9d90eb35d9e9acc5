-- ===== src/Pop3/Actions/Reactions.antt =====
-- What the commands of src/parser/pop3_parserADT.c that touch no file answer, and what they change:
-- each is described by the reply that it gives and the state that it leaves, without buffers and
-- system calls.
use pdc_pop3d.Prelude.{
  ℕ, ◌+◌, ◌-◌, ◌≤◌, ◌≡◌, refl, ◌∙◌, none, some, List, [], ◌∷◌, ◌++◌, inl, inr, arith, if◌then◌else◌,
  Bool-cases, length, length-take, take, map_first, ℤ, zero, suc, ◌%◌, ◌^◌, ◌<◌, ap, ap₂, sym,
  subst, ltb, leb, ◌==◌, Bool, true, false, take-all, length-append, pos, negsuc, Option,
  Option-cases,
}
use pdc_pop3d.CString.{Bytes, IsText, codes, crlf}
use pdc_pop3d.Numbers.{decimal, atoi}
use pdc_pop3d.Numbers.RoundTrip.{length-decimal}
use pdc_pop3d.Socket.{max_bytes}
use pdc_pop3d.Pop3.Files.{snprintf}
use pdc_pop3d.Pop3.Reply
use pdc_pop3d.Pop3.State.{
  ConnectionStatus, authorization, transaction, update, Mail, unchanged, deleted, Connection, State,
  Env, M, ◌>>◌, pure, send_n, send_data,
}
use pdc_pop3d.Pop3.State.Send.{
  Ready, Sends, Sends-refl, Sends-trans, then_run, send_n-Sends, send_data-Sends,
}
use pdc_pop3d.Pop3.Actions.Marks.{marked, set_status-run}
use pdc_pop3d.Pop3.Actions.{
  sum_octets, max_response_length, is_authorization, forbidden, invalid_index, mail_index,
  set_status, stat_response, list_header, email_info, calculate_total_email_bytes, stat_action,
  list_from, list_action, dele_action, noop_action, rset_action, capa_action, default_action,
}

-- What a command is to do: the result of its action, its reply and the state behind it.
pub record Reaction (D : Type 0) : Type 0 where
  pub result : ℤ
  pub text : Bytes
  pub next : State D

-- The lines of a listing, the first with the number `k + 1`: the number and the size of a mail.
abbrev pub listing : ℕ → List Mail → Bytes
listing k [] = []
listing k (m ∷ ms) = (decimal (k + 1) ++ b' ' ∷ decimal m.octets ++ crlf) ++ listing (k + 1) ms

-- The sum of the sizes.
abbrev pub octets_of : List Mail → ℕ
octets_of [] = 0
octets_of (m ∷ ms) = m.octets + octets_of ms

-- The index of the mail that an argument of this value numbers, counted from 1, among `n` mails.
abbrev pub numbered : ℤ → ℕ → Option ℕ
numbered (pos zero) n = none
numbered (pos (suc i)) n = if ltb i n then some i else none
numbered (negsuc k) n = none

-- Before a user has logged in.
abbrev pub logged_out : ConnectionStatus → Bool
logged_out authorization = true
logged_out transaction = false
logged_out update = false

is_authorization-logged_out : (c : ConnectionStatus) → is_authorization c ≡ logged_out c
is_authorization-logged_out authorization = refl
is_authorization-logged_out transaction = refl
is_authorization-logged_out update = refl

module _ {D : Type 0} where
  abbrev pub with_conn : State D → Connection → State D
  with_conn s c = record s { conn = c }

  -- Before a user has logged in the command is refused.
  abbrev pub guarded : State D → Reaction D → Reaction D
  guarded s r =
      if logged_out s.conn.status
      then record { result = negsuc 0; text = Reply.err_unknown_command; next = s }
      else r

  abbrev pub answer : State D → Bytes → Reaction D
  answer s text = record { result = pos 0; text = text; next = s }

  abbrev pub stat_reaction : State D → Reaction D
  stat_reaction s =
      let mails = take s.conn.num_emails s.conn.mails in
      guarded s (
        answer s (
          codes "+OK "
          ++ decimal s.conn.num_emails
          ++ b' ' ∷ decimal (octets_of mails % 2 ^ 64)
          ++ crlf))

  abbrev pub list_reaction : State D → Reaction D
  list_reaction s = guarded s (
      answer s (
        (codes "+OK " ++ decimal s.conn.num_emails ++ codes " messages:" ++ crlf)
        ++ listing 0 (take s.conn.num_emails s.conn.mails)
        ++ (codes "." ++ crlf)))

  abbrev pub dele_reaction : Option ℕ → State D → Reaction D
  dele_reaction none s =
      guarded s (record { result = pos 1; text = Reply.err_invalid_email_index; next = s })
  dele_reaction (some i) s = guarded s (answer (marked i deleted s) Reply.ok_marked_deleted)

  abbrev pub rset_reaction : State D → Reaction D
  rset_reaction s = guarded s (
      answer
        (with_conn s (record s.conn {
          mails = map_first s.conn.num_emails (λ m. record m { status = unchanged }) s.conn.mails;
        }))
        Reply.ok_response)

-- What fits is not cut.
snprintf-fits : (n : ℕ) (text : Bytes) → length text < n → snprintf n text ≡ text
snprintf-fits n text h = take-all (n - 1) text (omega arith)

stat_text :
    (n total : ℕ)
    → stat_response n total ≡ codes "+OK " ++ decimal n ++ b' ' ∷ decimal total ++ crlf
unfolding stat_response
stat_text n total =
    snprintf-fits max_response_length (codes "+OK " ++ decimal n ++ b' ' ∷ decimal total ++ crlf) (
      omega (
        arith,
        length-decimal n,
        length-decimal total,
        length-append (codes "+OK ") (decimal n),
        length-append (codes "+OK " ++ decimal n) (b' ' ∷ decimal total),
        length-append (codes "+OK " ++ decimal n ++ b' ' ∷ decimal total) crlf,
      ))

list_text : (n : ℕ) → list_header n ≡ codes "+OK " ++ decimal n ++ codes " messages:" ++ crlf
unfolding list_header
list_text n =
    snprintf-fits max_response_length (codes "+OK " ++ decimal n ++ codes " messages:" ++ crlf) (
      omega (
        arith,
        length-decimal n,
        length-append (codes "+OK ") (decimal n),
        length-append (codes "+OK " ++ decimal n) (codes " messages:"),
        length-append (codes "+OK " ++ decimal n ++ codes " messages:") crlf,
      ))

info_text : (k : ℕ) (m : Mail) → email_info k m ≡ decimal (k + 1) ++ b' ' ∷ decimal m.octets ++ crlf
unfolding email_info
info_text k m = snprintf-fits 64 (decimal (k + 1) ++ b' ' ∷ decimal m.octets ++ crlf) (
    omega (
      arith,
      length-decimal (k + 1),
      length-decimal m.octets,
      length-append (decimal (k + 1)) (b' ' ∷ decimal m.octets),
      length-append (decimal (k + 1) ++ b' ' ∷ decimal m.octets) crlf,
    ))

numbered_bound : (z : ℤ) (n i : ℕ) → numbered z n ≡ some i → i < n
numbered_bound (pos zero) n i h = cc
numbered_bound (pos (suc k)) n i h = ground arith
numbered_bound (negsuc k) n i h = cc

email_infos : ℕ → List Mail → Bytes
email_infos k [] = []
email_infos k (m ∷ ms) = email_info k m ++ email_infos (k + 1) ms

email_infos-listing : (k : ℕ) (ms : List Mail) → email_infos k ms ≡ listing k ms
unfolding email_infos
email_infos-listing k [] = refl
email_infos-listing k (m ∷ ms) = ap₂ (◌++◌) (info_text k m) (email_infos-listing (k + 1) ms)

sum_octets-octets_of :
    (acc : ℕ) (ms : List Mail) → acc < 2 ^ 64 → sum_octets acc ms ≡ (acc + octets_of ms) % 2 ^ 64
unfolding sum_octets
sum_octets-octets_of acc [] h = omega arith
sum_octets-octets_of acc (m ∷ ms) h =
    sum_octets-octets_of ((acc + m.octets) % 2 ^ 64) ms (omega arith) ∙ omega arith

-- The code's test of a number is the plain one.
mail_index-numbered : (a : Bytes) (n : ℕ) → mail_index a n ≡ numbered (atoi a) n
unfolding mail_index
mail_index-numbered a n = go (atoi a)
  where
    go :
        (z : ℤ)
        → (elim z as (λ _. Option ℕ) [
          | pos k ↦ if k == 0 then none else if leb n (k - 1) then none else some (k - 1)
          | negsuc k ↦ none
        ])
          ≡ numbered z n
    go (pos zero) = refl
    go (pos (suc i)) = ground arith
    go (negsuc k) = refl

snprintf_fits : (n : ℕ) (text : Bytes) → n ≤ max_bytes → length (snprintf n text) ≤ max_bytes
snprintf_fits n text h = omega (arith, length-take (n - 1) text)

stat_response_fits : (n total : ℕ) → length (stat_response n total) ≤ max_bytes
unfolding stat_response
stat_response_fits n total =
    snprintf_fits max_response_length (codes "+OK " ++ decimal n ++ b' ' ∷ decimal total ++ crlf)
      (omega arith)

list_header_fits : (n : ℕ) → length (list_header n) ≤ max_bytes
unfolding list_header
list_header_fits n =
    snprintf_fits max_response_length (codes "+OK " ++ decimal n ++ codes " messages:" ++ crlf)
      (omega arith)

email_info_fits : (i : ℕ) (m : Mail) → length (email_info i m) ≤ max_bytes
unfolding email_info
email_info_fits i m =
    snprintf_fits 64 (decimal (i + 1) ++ b' ' ∷ decimal m.octets ++ crlf) (omega arith)

module _ {D : Type 0} (env : Env D) where
  -- The action ends with the result of the reaction: it has sent the reply and left its state.
  abbrev pub Reacts : M D ℤ → State D → Reaction D → Type 0
  Reacts m s r = (s' : State D) × (m s ≡ some (r.result, s')) × Sends env r.text r.next s'

  -- A reply, behind which the action returns `z`.
  pub reply-Reacts :
      (text : Bytes) (z : ℤ) (t : State D)
      → Ready env t
      → IsText text
      → length text ≤ max_bytes
      → Reacts (send_data env text >> pure z) t (record { result = z; text = text; next = t })
  reply-Reacts text z t r h l =
      let (s', run, sent) = send_data-Sends env text t r h l in
      (s', then_run (send_data env text) (pure z) run, sent)

  pub forbidden-Reacts :
      (s : State D)
      → Ready env s
      → Reacts
          (forbidden env)
          s
          (record { result = negsuc 0; text = Reply.err_unknown_command; next = s })
  unfolding forbidden
  forbidden-Reacts s r =
      reply-Reacts Reply.err_unknown_command (negsuc 0) s r (omega arith) (omega arith)

  -- An action that asks first whether a user has logged in.
  guarded-Reacts :
      (body : M D ℤ) (s : State D) (r : Reaction D)
      → Ready env s
      → Reacts body s r
      → Reacts
          (λ t. (if is_authorization s.conn.status then forbidden env else body) t)
          s
          (guarded s r)
  guarded-Reacts body s r ready h =
      rw (is_authorization-logged_out s.conn.status) (elim (Bool-cases (logged_out s.conn.status)) [
        | inl e ↦ rw e (forbidden-Reacts s ready)
        | inr e ↦ rw e h
      ])

  sent-Reacts :
      (text : Bytes) (z : ℤ) (t : State D)
      → Ready env t
      → length text ≤ max_bytes
      → Reacts (send_n env text >> pure z) t (record { result = z; text = text; next = t })
  sent-Reacts text z t r h =
      let (s', run, sent) = send_n-Sends env text t r h in
      (s', then_run (send_n env text) (pure z) run, sent)

  -- STAT sends the number of mails and the sum of their sizes.
  pub stat_action-Reacts :
      (arg : Bytes) (s : State D) → Ready env s → Reacts (stat_action env arg) s (stat_reaction s)
  unfolding stat_action calculate_total_email_bytes
  stat_action-Reacts arg s r =
      let n = s.conn.num_emails in
      let total = calculate_total_email_bytes s.conn in
      let mails = take n s.conn.mails in
      let sum : total ≡ octets_of mails % 2 ^ 64 =
        sum_octets-octets_of 0 mails (omega arith) ∙ omega arith in
      let text =
        stat_text n total ∙ ap (λ t. codes "+OK " ++ decimal n ++ b' ' ∷ decimal t ++ crlf) sum in
      guarded-Reacts _ s _ r (
        subst (λ x. Reacts (send_n env (stat_response n total) >> pure (pos 0)) s (answer s x)) text
          (sent-Reacts (stat_response n total) (pos 0) s r (stat_response_fits n total)))

  list_from-Sends :
      (i : ℕ) (ms : List Mail) (s : State D)
      → Ready env s
      → (s' : State D) × (list_from env i ms s ≡ some (tt, s')) × Sends env (email_infos i ms) s s'
  unfolding list_from email_infos
  list_from-Sends i [] s r = (s, refl, Sends-refl env s r)
  list_from-Sends i (m ∷ ms) s r =
      let line = email_info i m in
      let (s1, run1, sent1) = send_n-Sends env line s r (email_info_fits i m) in
      let (s2, run2, sent2) = list_from-Sends (i + 1) ms s1 sent1.ready in
      (
        s2,
        then_run (send_n env line) (list_from env (i + 1) ms) run1 ∙ run2,
        Sends-trans env line (email_infos (i + 1) ms) s s1 s2 sent1 sent2,
      )

  -- LIST sends its header, a line for each mail in order, and the final dot.
  pub list_action-Reacts :
      (arg : Bytes) (s : State D) → Ready env s → Reacts (list_action env arg) s (list_reaction s)
  unfolding list_action
  list_action-Reacts arg s r =
      let header = list_header s.conn.num_emails in
      let mails = take s.conn.num_emails s.conn.mails in
      let (s1, run1, sent1) = send_n-Sends env header s r (list_header_fits s.conn.num_emails) in
      let (s2, run2, sent2) = list_from-Sends 0 mails s1 sent1.ready in
      let (s3, run3, sent3) =
        reply-Reacts Reply.simple_dot (pos 0) s2 sent2.ready (omega arith) (omega arith) in
      let lines = Sends-trans env header (email_infos 0 mails) s s1 s2 sent1 sent2 in
      let text =
        ap₂ (λ h l. h ++ l ++ Reply.simple_dot) (list_text s.conn.num_emails)
          (email_infos-listing 0 mails) in
      guarded-Reacts _ s _ r (
        s3,
        then_run (send_n env header) _ run1 ∙ then_run (list_from env 0 mails) _ run2 ∙ run3,
        subst (λ x. Sends env x s s3) text
            (Sends-trans env (header ++ email_infos 0 mails) Reply.simple_dot s s2 s3 lines sent3),
      )

  -- DELE marks the mail of its number as deleted, or refuses the number.
  pub dele_action-Reacts :
      (arg : Bytes) (s : State D)
      → Ready env s
      → s.conn.num_emails ≤ length s.conn.mails
      → Reacts (dele_action env arg) s (dele_reaction (numbered (atoi arg) s.conn.num_emails) s)
  unfolding dele_action invalid_index
  dele_action-Reacts arg s r f =
      subst (λ o. Reacts (dele_action env arg) s (dele_reaction o s))
        (mail_index-numbered arg s.conn.num_emails)
        (elim (Option-cases (mail_index arg s.conn.num_emails)) [
          | inl e ↦ rw e (
              guarded-Reacts _ s _ r (
                reply-Reacts Reply.err_invalid_email_index (pos 1) s r (omega arith) (omega arith)))
          | inr (i, e) ↦ rw e (
              guarded-Reacts _ s _ r (
                let bound =
                  numbered_bound (atoi arg) s.conn.num_emails i
                    (sym (mail_index-numbered arg s.conn.num_emails) ∙ e) in
                let (s', run, sent) =
                  reply-Reacts Reply.ok_marked_deleted (pos 0) (marked i deleted s)
                    (record { honest = r.honest; reading = r.reading; fresh = r.fresh })
                    (omega arith) (omega arith) in
                (
                  s',
                  then_run (set_status i deleted) _
                        (set_status-run i deleted s (omega (arith, bound, f)))
                      ∙ run,
                  sent,
                )))
        ])

  -- RSET marks all mails that are counted as unchanged.
  pub rset_action-Reacts :
      (arg : Bytes) (s : State D) → Ready env s → Reacts (rset_action env arg) s (rset_reaction s)
  unfolding rset_action
  rset_action-Reacts arg s r = guarded-Reacts _ s _ r (
      reply-Reacts Reply.ok_response (pos 0) _
        (record { honest = r.honest; reading = r.reading; fresh = r.fresh }) (omega arith)
        (omega arith))

  -- NOOP answers only, once a user has logged in.
  pub noop_action-Reacts :
      (arg : Bytes) (s : State D)
      → Ready env s
      → Reacts (noop_action env arg) s (guarded s (answer s Reply.ok_response))
  unfolding noop_action
  noop_action-Reacts arg s r =
      guarded-Reacts _ s _ r
        (reply-Reacts Reply.ok_response (pos 0) s r (omega arith) (omega arith))

  -- CAPA answers in every state, and does nothing else.
  pub capa_action-Reacts :
      (arg : Bytes) (s : State D)
      → Ready env s
      → Reacts (capa_action env arg) s (answer s Reply.ok_capa)
  unfolding capa_action
  capa_action-Reacts arg s r = elim (Bool-cases (is_authorization s.conn.status)) [
    | inl e ↦ rw e (reply-Reacts Reply.ok_capa (pos 0) s r (omega arith) (omega arith))
    | inr e ↦ rw e (reply-Reacts Reply.ok_capa (pos 0) s r (omega arith) (omega arith))
  ]

  default_action-Reacts :
      (arg : Bytes) (s : State D)
      → Ready env s
      → Reacts (default_action env arg) s (answer s Reply.err_default_action)
  unfolding default_action
  default_action-Reacts arg s r =
      reply-Reacts Reply.err_default_action (pos 0) s r (omega arith) (omega arith)
