-- ===== src/Pop3/Session/Framing.antt =====
-- How `pop3_handle_connection` of src/server_utils.c cuts what it receives into commands.
use pdc_pop3d.Prelude.{
  ℕ, zero, suc, ◌+◌, ◌-◌, ◌≤◌, ◌<◌, ◌≡◌, refl, sym, ap, ◌∙◌, subst, Option, none, some, List, [],
  ◌∷◌, ◌++◌, arith, inl, inr, le→leb, Option-cases, length, length-append, length-set, set, drop,
  drop-drop, drop-set, drop_append_length, append_assoc, All,
}
use pdc_pop3d.CString.{Bytes}
use pdc_pop3d.Text.Lines.{line_of, line_of_terminated}
use pdc_pop3d.Step.{◌>>=◌, ◌>>◌, pure, bind_run, bind_same, bind_assoc}
use pdc_pop3d.Step.Post.{bind_none}
use pdc_pop3d.Buffer.{Buffer, buffer_write_ptr}
use pdc_pop3d.Pop3.State.{State, Env, M}
use pdc_pop3d.Pop3.State.Kept.{Holds}
use pdc_pop3d.Parser.{parser_init, feed_all}
use pdc_pop3d.Pop3.Automaton.{pop3_parser_automaton, command_of}
use pdc_pop3d.Pop3.Commands.{respond, parse_input}
use pdc_pop3d.Pop3.Commands.Input.{with_parser}
use pdc_pop3d.Pop3.Commands.Kept.{parse_input-Keeps}
use pdc_pop3d.Pop3.Session.{End, waiting, strstr_crlf, modify_read, write_ptr, drain}
use pdc_pop3d.Pop3.Session.Search.{IsPiece, joined_lines, strstr-front, strstr-line, first_line}

abbrev pub set_read : {D : Type 0} → Buffer → State D → State D
set_read b s = record s { conn = record s.conn { info_read_buff = b } }

-- The lines are executed one after the other; between them only the read buffer changes. The
-- process may abort in a command.
pub data Executes {D : Type 0} (env : Env D)
    : List Bytes → State D → Option (State D) → Type 0 where
  done : (s : State D) → Executes env [] s (some s)
  loads :
      (b : Buffer) (ls : List Bytes) (s : State D) (o : Option (State D))
      → Executes env ls (set_read b s) o
      → Executes env ls s o
  runs :
      (l : Bytes) (ls : List Bytes) (s s' : State D) (o : Option (State D))
      → parse_input env l s ≡ some (tt, s')
      → Executes env ls s' o
      → Executes env (l ∷ ls) s o
  aborts :
      (l : Bytes) (ls : List Bytes) (s : State D)
      → parse_input env l s ≡ none
      → Executes env (l ∷ ls) s none

-- The buffer holds the bytes `q` that are not yet a command, from `base` on, with a NUL behind them.
pub record Gathers (base : ℕ) (q junk : Bytes) (b : Buffer) : Type 0 where
  pub write_le : b.write ≤ b.limit
  pub storage : b.limit ≤ length b.cells
  pub held : drop base b.cells ≡ q ++ 0 ∷ junk
  pub up_to : base + length q ≡ b.write

abbrev pub still_open : {D : Type 0} → Option (State D) → Option (End × State D)
still_open none = none
still_open (some s) = some (waiting, s)

-- `result` is what is there when the lines have been executed and the client is waited for.
pub record Executed {D : Type 0} (env : Env D) (ls : List Bytes) (s : State D)
    (result : Option (End × State D)) : Type 0 where
  pub outcome : Option (State D)
  pub execution : Executes env ls s outcome
  pub result_is : result ≡ still_open outcome

set_append_length : (l t : Bytes) (c v : ℕ) → set (l ++ c ∷ t) (length l) v ≡ l ++ v ∷ t
set_append_length [] t c v = refl
set_append_length (x ∷ l) t c v = ap (◌∷◌ x) (set_append_length l t c v)

module _ {D : Type 0} (env : Env D) where
  -- A command is read up to its NUL.
  parse_input-line :
      (x y : Bytes) (s : State D)
      → line_of x ≡ line_of y
      → parse_input env x s ≡ parse_input env y s
  unfolding parse_input
  parse_input-line x y s e =
      let c = env.calloc s.shared.parsers in
      ap
        (λ line. elim (parser_init pop3_parser_automaton c.0 c.1) [
          | none ↦ none
          | some p ↦ respond env (command_of (feed_all p line)) (with_parser s)
        ])
        e

  pub loads-Executed :
      (b : Buffer) (ls : List Bytes) (s : State D) (result : Option (End × State D))
      → Executed env ls (set_read b s) result
      → Executed env ls s result
  loads-Executed b ls s result x = record {
    outcome = x.outcome;
    execution = loads b ls s x.outcome x.execution;
    result_is = x.result_is;
  }

  -- A command that is executed, and what follows it.
  runs-Executed :
      (input l : Bytes) (ls : List Bytes) (s : State D) (k : Unit {0} → M D End)
      → line_of input ≡ line_of l
      → ((s' : State D) → parse_input env l s ≡ some (tt, s') → Executed env ls s' (k tt s'))
      → Executed env (l ∷ ls) s ((parse_input env input >>= k) s)
  runs-Executed input l ls s k e f =
      let same = parse_input-line input l s e in
      elim (Option-cases (parse_input env l s)) [
        | inl h ↦ record {
          outcome = none;
          execution = aborts l ls s h;
          result_is = bind_none (parse_input env input) k s (same ∙ h);
        }
        | inr ((u, s'), h) ↦
            let x = f s' h in
            record {
              outcome = x.outcome;
              execution = runs l ls s s' x.outcome h x.execution;
              result_is = bind_run (parse_input env input) k (same ∙ h) ∙ x.result_is;
            }
      ]

  -- Where the first command ends, the NUL is put there, and the rest stands behind it.
  cut_command :
      (base : ℕ) (l q junk cells : Bytes)
      → drop base cells ≡ (l ++ 13 ∷ 10 ∷ q) ++ 0 ∷ junk
      → (drop base (set cells (base + length l) 0) ≡ l ++ 0 ∷ 10 ∷ (q ++ 0 ∷ junk))
        × (drop (base + length l + 2) (set cells (base + length l) 0) ≡ q ++ 0 ∷ junk)
  cut_command base l q junk cells h =
      let first : drop base (set cells (base + length l) 0) ≡ l ++ 0 ∷ 10 ∷ (q ++ 0 ∷ junk) =
        drop-set base (length l) cells 0
        ∙ ap (λ x. set x (length l) 0) (h ∙ append_assoc l (13 ∷ 10 ∷ q) (0 ∷ junk))
        ∙ set_append_length l (10 ∷ (q ++ 0 ∷ junk)) 13 0 in
      let cells' = set cells (base + length l) 0 in
      (
        first,
        sym (drop-drop 2 (base + length l) cells')
            ∙ ap (drop 2) (
                sym (drop-drop (length l) base cells')
                ∙ ap (drop (length l)) first
                ∙ drop_append_length l (0 ∷ 10 ∷ (q ++ 0 ∷ junk))),
      )

  -- The buffer after the first command was cut off still gathers, behind it.
  abbrev cut : ℕ → Bytes → Buffer → Buffer
  cut base l b = record b { cells = set b.cells (base + length l) 0 }

  Gathers-cut :
      (base : ℕ) (l q junk : Bytes) (b : Buffer)
      → Gathers base (l ++ 13 ∷ 10 ∷ q) junk b
      → Gathers (base + length l + 2) q junk (cut base l b)
  Gathers-cut base l q junk b g = record {
    write_le = g.write_le;
    storage = omega (arith, g.storage, length-set b.cells (base + length l) 0);
    held = (cut_command base l q junk b.cells g.held).1;
    up_to = omega (arith, g.up_to, length-append l (13 ∷ 10 ∷ q));
  }

  pub write_ptr_lem :
      (s : State D)
      → s.conn.info_read_buff.write ≤ s.conn.info_read_buff.limit
      → write_ptr env s
        ≡ some (
          (s.conn.info_read_buff.write, s.conn.info_read_buff.limit - s.conn.info_read_buff.write),
          s,
        )
  unfolding write_ptr buffer_write_ptr
  write_ptr_lem s h =
      rw (le→leb s.conn.info_read_buff.write s.conn.info_read_buff.limit h, write_ptr) refl

  -- The state between two turns: some bytes are gathered, and with those that are still to come they
  -- are the lines.
  pub record Awaits (base : ℕ) (ls : List Bytes) (r m : Bytes) (s : State D) : Type 0 where
    pub pending : Bytes
    pub junk : Bytes
    pub holds : Holds s.conn.info_read_buff s.conn
    pub gathers : Gathers base pending junk s.conn.info_read_buff
    pub to_come : pending ++ m ≡ joined_lines ls r
    pub pieces : All IsPiece ls

  -- A turn of the loop over the commands, by what `strstr` finds.
  abbrev turn : ℕ → ℕ → State D → Option ℕ → M D ℕ
  turn fuel base s o = elim o [
    | none ↦ pure base
    | some k ↦
        modify_read env (λ b. record b { cells = set b.cells (base + k) 0 })
        >> (parse_input env (drop base (set s.conn.info_read_buff.cells (base + k) 0))
            >> (write_ptr env >>= λ _. drain env fuel (base + k + 2)))
  ]

  -- A turn that finds a command.
  drain_found :
      (fuel base : ℕ) (l q junk : Bytes) (s : State D) (k : ℕ → M D End)
      → IsPiece l
      → Gathers base (l ++ 13 ∷ 10 ∷ q) junk s.conn.info_read_buff
      → (drain env (suc fuel) base >>= k) s
        ≡ (parse_input env (drop base (cut base l s.conn.info_read_buff).cells) >>= λ _.
              (write_ptr env >>= λ _. drain env fuel (base + length l + 2)) >>= k)
            (set_read (cut base l s.conn.info_read_buff) s)
  unfolding drain
  drain_found fuel base l q junk s k p g =
      let found : strstr_crlf (drop base s.conn.info_read_buff.cells) ≡ some (length l) =
        ap strstr_crlf (g.held ∙ append_assoc l (13 ∷ 10 ∷ q) (0 ∷ junk))
        ∙ strstr-line l (q ++ 0 ∷ junk) p in
      let b = s.conn.info_read_buff in
      ap (λ o. (turn fuel base s o >>= k) s) found
      ∙ bind_assoc (parse_input env (drop base (cut base l b).cells))
          (λ _. write_ptr env >>= λ _. drain env fuel (base + length l + 2)) k
          (set_read (cut base l b) s)

  -- A turn that finds none.
  drain_ends :
      (fuel base : ℕ) (s : State D) (k : ℕ → M D End)
      → strstr_crlf (drop base s.conn.info_read_buff.cells) ≡ none
      → (drain env (suc fuel) base >>= k) s ≡ k base s
  unfolding drain
  drain_ends fuel base s k h = ap (λ o. (turn fuel base s o >>= k) s) h

  -- The command is executed, and the loop goes on behind it.
  command-Awaits :
      (base : ℕ) (l q junk m r : Bytes) (ls : List Bytes) (s s' : State D)
      → All IsPiece ls
      → q ++ m ≡ joined_lines ls r
      → Gathers base (l ++ 13 ∷ 10 ∷ q) junk s.conn.info_read_buff
      → Holds (cut base l s.conn.info_read_buff) s'.conn
      → Awaits (base + length l + 2) ls r m s'
  command-Awaits base l q junk m r ls s s' ps e g h = record {
    pending = q;
    junk = junk;
    holds = record { cells = h.cells; room = h.room; read_is = refl };
    gathers =
        subst (Gathers (base + length l + 2) q junk) (sym h.read_is)
          (Gathers-cut base l q junk s.conn.info_read_buff g);
    to_come = e;
    pieces = ps;
  }

  -- What the loop over the commands leads to, when that is known of what follows it.
  abbrev pub Follows : List Bytes → Bytes → Bytes → Buffer → (ℕ → M D End) → Type 0
  Follows ls r m b k =
      (ls' : List Bytes) (base' : ℕ) (s' : State D)
      → Awaits base' ls' r m s'
      → strstr_crlf (drop base' s'.conn.info_read_buff.cells) ≡ none
      → s'.conn.info_read_buff.write ≡ b.write
      → s'.conn.info_read_buff.limit ≡ b.limit
      → Executed env ls' s' (k base' s')

  write_ptr-drain :
      (fuel base : ℕ) (s : State D) (k : ℕ → M D End)
      → s.conn.info_read_buff.write ≤ s.conn.info_read_buff.limit
      → ((write_ptr env >>= λ _. drain env fuel base) >>= k) s ≡ (drain env fuel base >>= k) s
  write_ptr-drain fuel base s k h =
      bind_same (write_ptr env >>= λ _. drain env fuel base) (drain env fuel base) k s s
        (bind_run (write_ptr env) (λ _. drain env fuel base) (write_ptr_lem s h))

  pub drain-Executed :
      (fuel base : ℕ) (ls : List Bytes) (r m : Bytes) (s : State D) (k : ℕ → M D End)
      → IsPiece r
      → (w : Awaits base ls r m s) → length w.pending < fuel
      → Follows ls r m s.conn.info_read_buff k
      → Executed env ls s ((drain env fuel base >>= k) s)
  drain-Executed zero base ls r m s k p w h f = absurd (omega arith)
  drain-Executed (suc fuel) base [] r m s k p w h f =
      let none_left : strstr_crlf (drop base s.conn.info_read_buff.cells) ≡ none =
        ap strstr_crlf w.gathers.held
        ∙ strstr-front w.pending m w.junk (ap strstr_crlf w.to_come ∙ p.no_end) in
      subst (Executed env [] s) (sym (drain_ends fuel base s k none_left))
        (f [] base s w none_left refl refl)
  drain-Executed (suc fuel) base (l ∷ ls) r m s k p w h f =
      elim (first_line w.pending m l (joined_lines ls r) w.junk w.pieces.0 w.to_come) [
        | inr n ↦
            let none_yet = ap strstr_crlf w.gathers.held ∙ n in
            subst (Executed env (l ∷ ls) s) (sym (drain_ends fuel base s k none_yet))
              (f (l ∷ ls) base s w none_yet refl refl)
        | inl (q, e, e') ↦
            let b = s.conn.info_read_buff in
            let g = subst (λ x. Gathers base x w.junk b) e w.gathers in
            let s1 = set_read (cut base l b) s in
            let held = (cut_command base l q w.junk b.cells g.held).0 in
            subst (Executed env (l ∷ ls) s)
              (sym (drain_found fuel base l q w.junk s k w.pieces.0 g))
              (loads-Executed (cut base l b) (l ∷ ls) s _ (
                runs-Executed (drop base (cut base l b).cells) l ls s1
                  (λ _. (write_ptr env >>= λ _. drain env fuel (base + length l + 2)) >>= k)
                  (ap line_of held ∙ line_of_terminated l (10 ∷ (q ++ 0 ∷ w.junk)))
                  (λ s' run.
                    let kept =
                      ((parse_input-Keeps env (cut base l b) l).kept s1 (record {
                        cells = w.holds.cells;
                        room = w.holds.room;
                        read_is = refl;
                      })).holds
                        tt s' run in
                    let w' = command-Awaits base l q w.junk m r ls s s' w.pieces.1 e' g kept in
                    subst (Executed env ls s')
                      (sym (write_ptr-drain fuel (base + length l + 2) s' k w'.gathers.write_le))
                      (drain-Executed fuel (base + length l + 2) ls r m s' k p w'
                        (omega (
                          arith,
                          h,
                          w'.gathers.up_to,
                          ap (λ x. x.write) kept.read_is,
                          w.gathers.up_to,
                        ))
                        (λ ls' base' s'' w'' none_yet same_write same_limit.
                          f ls' base' s'' w'' none_yet (same_write ∙ ap (λ x. x.write) kept.read_is)
                            (same_limit ∙ ap (λ x. x.limit) kept.read_is))))))
      ]
