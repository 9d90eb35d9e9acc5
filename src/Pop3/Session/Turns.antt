-- ===== src/Pop3/Session/Turns.antt =====
-- The turns of the inner loop of `pop3_handle_connection`, src/server_utils.c: each adds the bytes of a
-- `recv` to those that are gathered.
use pdc_pop3d.Prelude.{
  ℕ, map, suc, ◌+◌, ◌-◌, ◌≤◌, ◌<◌, ◌≡◌, refl, sym, ap, ◌∙◌, subst, false, none, some, List, [], ◌∷◌,
  ◌++◌, arith, ltb, le→leb, le→ltb, ◌==◌, length, length-append, length-set, set, take, drop,
  take-all, take_append_length, drop-set, length-drop, append-nil, append_assoc, All,
}
use pdc_pop3d.CString.{Bytes}
use pdc_pop3d.Text.Lines.{set-front}
use pdc_pop3d.Step.{◌>>=◌, pure, get, bind_run, then_run, bind_same, bind_assoc}
use pdc_pop3d.Buffer.{Buffer, buffer_write_adv, store}
use pdc_pop3d.Buffer.Contents.{IsValid}
use pdc_pop3d.Buffer.Queue.{length-store, buffer_write_adv_refines}
use pdc_pop3d.Pop3.State.{State, Env, M}
use pdc_pop3d.Pop3.State.Kept.{Holds}
use pdc_pop3d.Pop3.Session.{
  RecvResult, got, strstr_crlf, Turn, goes_on, closed, broken, End, waiting, ended,
  max_command_length, write_ptr, write_adv, drain, take_bytes, receive, session,
}
use pdc_pop3d.Pop3.Session.Search.{IsPiece, joined_lines, strstr-line, strstr-text}
use pdc_pop3d.Pop3.Session.Framing.{
  set_read, Gathers, Executed, Awaits, loads-Executed, drain-Executed, write_ptr_lem,
}
use pdc_pop3d.Pop3.Session.Framing

-- The buffer with some more bytes and a NUL behind them.
abbrev extended : Buffer → Bytes → Buffer
extended b d = record b {
  cells = set (store b.cells b.write d) (b.write + length d) 0;
  write = b.write + length d;
}

-- The buffer holds the bytes `q` from `base` on, whatever stands behind them.
pub record Collects (base : ℕ) (q : Bytes) (b : Buffer) : Type 0 where
  pub write_le : b.write ≤ b.limit
  pub storage : b.limit ≤ length b.cells
  pub front : take (length q) (drop base b.cells) ≡ q
  pub up_to : base + length q ≡ b.write

Gathers-Collects :
    (base : ℕ) (q junk : Bytes) (b : Buffer) → Gathers base q junk b → Collects base q b
Gathers-Collects base q junk b g = record {
  write_le = g.write_le;
  storage = g.storage;
  front = ap (take (length q)) g.held ∙ take_append_length q (0 ∷ junk);
  up_to = g.up_to;
}

Gathers-extended :
    (base : ℕ) (q d : Bytes) (b : Buffer)
    → Collects base q b
    → b.write + length d < b.limit
    → Gathers base
        (q ++ d)
        (drop (suc (length (q ++ d))) (drop base (store b.cells b.write d)))
        (extended b d)
Gathers-extended base q d b g h =
    let b0 = record b { read = base } in
    let (_, _, c) =
      buffer_write_adv_refines {b = b0} d
        (record { read_le = omega (arith, g.up_to); write_le = g.write_le; storage = g.storage })
        (omega (arith, h)) in
    let n = length (q ++ d) in
    let cells = store b.cells b.write d in
    let e : b.write + length d ≡ base + n = omega (arith, g.up_to, length-append q d) in
    let old : b.write - base ≡ length q = omega (arith, g.up_to) in
    let both : b.write + length d - base ≡ n = omega (arith, g.up_to, length-append q d) in
    let before : take (b.write - base) (drop base b.cells) ≡ q =
      ap (λ j. take j (drop base b.cells)) old ∙ g.front in
    let front : take n (drop base cells) ≡ q ++ d =
      sym (ap (λ j. take j (drop base cells)) both) ∙ c ∙ ap (λ x. x ++ d) before in
    record {
      write_le = omega (arith, h);
      storage = omega (
        arith,
        g.storage,
        length-set cells (b.write + length d) 0,
        length-store d b.cells b.write,
      );
      held =
          ap (λ i. drop base (set cells i 0)) e
          ∙ drop-set base n cells 0
          ∙ set-front (q ++ d) (drop base cells) front (
              omega (
                arith,
                length-drop base cells,
                length-store d b.cells b.write,
                g.storage,
                g.up_to,
                h,
                length-append q d,
              ));
      up_to = sym e;
    }

abbrev pub concat : List Bytes → Bytes
concat [] = []
concat (d ∷ ds) = d ++ concat ds

strstr-nil : strstr_crlf [] ≡ none
unfolding strstr_crlf
strstr-nil = refl

module _ {D : Type 0} (env : Env D) where
  write_adv_lem :
      (n : ℕ) (s : State D)
      → s.conn.info_read_buff.write + n ≤ s.conn.info_read_buff.limit
      → write_adv env n s
        ≡ some (
          tt,
          set_read (record s.conn.info_read_buff { write = s.conn.info_read_buff.write + n }) s,
        )
  unfolding write_adv buffer_write_adv
  write_adv_lem n s h =
      rw (le→leb (s.conn.info_read_buff.write + n) s.conn.info_read_buff.limit h, write_adv) refl

  -- Bytes that arrive are stored, and the commands that are complete are executed.
  take_bytes_lem :
      (base total : ℕ) (d : Bytes) (s : State D)
      → s.conn.info_read_buff.write + length d ≤ s.conn.info_read_buff.limit
      → let b = s.conn.info_read_buff in
        let s1 = set_read (record b { cells = store b.cells b.write d }) s in
        take_bytes env base total b.write (length d) s1
        ≡ (drain env (length (extended b d).cells) base >>= λ base'.
              pure (goes_on base' (total + length d)))
            (set_read (extended b d) s)
  unfolding take_bytes
  take_bytes_lem base total d s h =
      let b = s.conn.info_read_buff in
      let n = length d in
      let end : M D Turn = write_ptr env >>= λ _. get >>= λ s.
      drain env (length s.conn.info_read_buff.cells) base >>= λ base'.
      pure (goes_on base' (total + n)) in
      let s2 = set_read (record b { cells = (extended b d).cells }) s in
      then_run (write_adv env n) end (write_adv_lem n s2 h)
      ∙ bind_run (write_ptr env) _ (write_ptr_lem env (set_read (extended b d) s) h)

  receive_got :
      (base total : ℕ) (d : Bytes) (s : State D)
      → 0 < length d
      → total + length d ≤ max_command_length
      → s.conn.info_read_buff.write + length d ≤ s.conn.info_read_buff.limit
      → receive env base total (got d) s
        ≡ (drain env (length (extended s.conn.info_read_buff d).cells) base >>= λ base'.
              pure (goes_on base' (total + length d)))
            (set_read (extended s.conn.info_read_buff d) s)
  unfolding receive
  receive_got base total d s n f h =
      let b = s.conn.info_read_buff in
      let whole : take (b.limit - b.write) d ≡ d = take-all (b.limit - b.write) d (omega arith) in
      let short : ltb max_command_length (total + length d) ≡ false = le→ltb _ _ f in
      let some_bytes : (length d == 0) ≡ false = ground arith in
      bind_run (write_ptr env) _ (write_ptr_lem env s (omega arith))
      ∙ rw (whole, short, some_bytes) refl
      ∙ take_bytes_lem base total d s h

  -- The state between two `recv`: the bytes that are gathered, with those that are still to come, are
  -- the lines, and no line is complete yet.
  pub record Waits (base total : ℕ) (ls : List Bytes) (r m : Bytes) (s : State D) : Type 0 where
    pub pending : Bytes
    pub holds : Holds s.conn.info_read_buff s.conn
    pub collects : Collects base pending s.conn.info_read_buff
    pub to_come : pending ++ m ≡ joined_lines ls r
    pub pieces : All IsPiece ls
    pub quiet : strstr_crlf pending ≡ none
    pub total_is : s.conn.info_read_buff.write ≡ total
    pub room : max_command_length < s.conn.info_read_buff.limit

  -- After a `recv`, before the commands are looked for.
  got-Awaits :
      (base total : ℕ) (ls : List Bytes) (r m d : Bytes) (s : State D)
      → Waits base total ls r (d ++ m) s
      → total + length d ≤ max_command_length
      → Awaits env base ls r m (set_read (extended s.conn.info_read_buff d) s)
  got-Awaits base total ls r m d s w h = record {
    pending = w.pending ++ d;
    junk = _;
    holds = record { cells = w.holds.cells; room = w.holds.room; read_is = refl };
    gathers =
        Gathers-extended base w.pending d s.conn.info_read_buff w.collects
          (omega (arith, w.total_is, w.room));
    to_come = append_assoc w.pending d m ∙ w.to_come;
    pieces = w.pieces;
  }

  -- When nothing is to come any more, no line is left.
  Waits-end :
      (base total : ℕ) (ls : List Bytes) (r : Bytes) (s : State D)
      → Waits base total ls r [] s
      → Executed env ls s (some (waiting, s))
  Waits-end base total [] r s w = record {
    outcome = some s;
    execution = Framing.done s;
    result_is = refl;
  }
  Waits-end base total (l ∷ ls) r s w = absurd (
      none-some (
        sym w.quiet
        ∙ ap strstr_crlf (sym (append-nil w.pending) ∙ w.to_come)
        ∙ strstr-line l (joined_lines ls r) w.pieces.0))
    where
      none-some : {A : Type 0} {x : A} → none ≡ some x → ⊥
      none-some h = cc

  -- After the commands, before the next `recv`.
  Awaits-Waits :
      (base total : ℕ) (ls : List Bytes) (r m : Bytes) (s : State D)
      → Awaits env base ls r m s
      → strstr_crlf (drop base s.conn.info_read_buff.cells) ≡ none
      → s.conn.info_read_buff.write ≡ total
      → max_command_length < s.conn.info_read_buff.limit
      → Waits base total ls r m s
  Awaits-Waits base total ls r m s w none_yet t h = record {
    pending = w.pending;
    holds = w.holds;
    collects = Gathers-Collects base w.pending w.junk s.conn.info_read_buff w.gathers;
    to_come = w.to_come;
    pieces = w.pieces;
    quiet = strstr-text w.pending w.junk (sym (ap strstr_crlf w.gathers.held) ∙ none_yet);
    total_is = t;
    room = h;
  }

  -- A turn that receives some bytes, and the turns behind it.
  session_got :
      (base total : ℕ) (d : Bytes) (es : List RecvResult) (s : State D)
      → 0 < length d
      → total + length d ≤ max_command_length
      → s.conn.info_read_buff.write + length d ≤ s.conn.info_read_buff.limit
      → session env base total (got d ∷ es) s
        ≡ (drain env (length (extended s.conn.info_read_buff d).cells) base >>= λ base'.
              session env base' (total + length d) es)
            (set_read (extended s.conn.info_read_buff d) s)
  unfolding session
  session_got base total d es s n f h =
      let drained = drain env (length (extended s.conn.info_read_buff d).cells) base in
      bind_same (receive env base total (got d))
        (drained >>= λ base'. pure (goes_on base' (total + length d))) next s
        (set_read (extended s.conn.info_read_buff d) s) (receive_got base total d s n f h)
      ∙ bind_assoc drained (λ base'. pure (goes_on base' (total + length d))) next
          (set_read (extended s.conn.info_read_buff d) s)
    where
      next : Turn → M D End
      next t = elim t [
        | goes_on base' total' ↦ session env base' total' es
        | closed ↦ pure ended
        | broken ↦ pure ended
      ]

  pub session-Executed :
      (ds : List Bytes) (base total : ℕ) (ls : List Bytes) (r : Bytes) (s : State D)
      → IsPiece r
      → All (λ d. 0 < length d) ds
      → total + length (concat ds) ≤ max_command_length
      → Waits base total ls r (concat ds) s
      → Executed env ls s (session env base total (map got ds) s)
  unfolding session
  session-Executed [] base total ls r s p n h w = Waits-end base total ls r s w
  session-Executed (d ∷ ds) base total ls r s p n h w =
      let b = s.conn.info_read_buff in
      let fits : total + length d ≤ max_command_length =
        omega (arith, h, length-append d (concat ds)) in
      let s2 = set_read (extended b d) s in
      let rest = λ (base' : ℕ). session env base' (total + length d) (map got ds) in
      let a = got-Awaits base total ls r (concat ds) d s w fits in
      subst (Executed env ls s)
        (sym (
          session_got base total d (map got ds) s n.0 fits
            (omega (arith, w.total_is, w.room, fits))))
        (loads-Executed env (extended b d) ls s _ (
          drain-Executed env (length (extended b d).cells) base ls r (concat ds) s2 rest p a
            (omega (arith, a.gathers.up_to, a.gathers.storage, w.total_is, w.room, fits))
            (λ ls' base' s' w' none_yet same_write same_limit.
              session-Executed ds base' (total + length d) ls' r s' p n.1
                (omega (arith, h, length-append d (concat ds)))
                (Awaits-Waits base' (total + length d) ls' r (concat ds) s' w' none_yet
                  (same_write ∙ ap (λ x. x + length d) w.total_is)
                  (omega (arith, same_limit, w.room))))))

  -- However the bytes of a session are cut into what `recv` gives, as long as they are at most 255:
  -- if they are some lines, each with CR LF behind it, and a rest, with no CR LF and no NUL in any of
  -- them, then exactly these lines are given to `parse_input`, each once and in their order, and
  -- between two of them only the read buffer changes. Then the client is waited for, unless a command
  -- has aborted the process. The read buffer is empty at first, and has room for 256 bytes.
  pub session_frames :
      (ds ls : List Bytes) (r : Bytes) (s : State D)
      → All IsPiece ls
      → IsPiece r
      → All (λ d. 0 < length d) ds
      → length (concat ds) ≤ max_command_length
      → concat ds ≡ joined_lines ls r
      → Holds s.conn.info_read_buff s.conn
      → IsValid s.conn.info_read_buff
      → s.conn.info_read_buff.write ≡ 0
      → max_command_length < s.conn.info_read_buff.limit
      → Executed env ls s (session env 0 0 (map got ds) s)
  session_frames ds ls r s ps p n h e holds v w room =
      session-Executed ds 0 0 ls r s p n (omega (arith, h)) (record {
        pending = [];
        holds = holds;
        collects = record {
          write_le = v.write_le;
          storage = v.storage;
          front = refl;
          up_to = omega (arith, w);
        };
        to_come = e;
        pieces = ps;
        quiet = strstr-nil;
        total_is = w;
        room = room;
      })
