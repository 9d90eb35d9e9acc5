-- ===== src/Pop3/Commands/Input.antt =====
-- What `parse_input` of src/parser/pop3_parserADT.c does with a line: the grammar, the table of
-- commands and the actions together.
use pdc_pop3d.Prelude.{
  ◌+◌, ◌-◌, ◌≡◌, ◌≢◌, refl, ap, ◌∙◌, subst, true, false, Option, none, some, inl, inr, arith,
  Option-cases, length, ◌≤◌, [],
}
use pdc_pop3d.CString.{Bytes, IsText}
use pdc_pop3d.Socket.{max_bytes}
pub use pdc_pop3d.Text.Lines.{line_of}
use pdc_pop3d.Parser.{Parser, parser_init, feed_all}
use pdc_pop3d.Pop3.Automaton.{Pop3ParserData, pop3_parser_automaton, command_of}
use pdc_pop3d.Pop3.Automaton.Data.{reading, parser_init-pop3}
use pdc_pop3d.Pop3.Automaton.Grammar.{IsLine, command_of-feed_all_iff}
use pdc_pop3d.Pop3.Reply
use pdc_pop3d.Pop3.State.{State, Env, M, ◌>>=◌, ◌>>◌, modify_shared, pure, send_data}
use pdc_pop3d.Pop3.State.Send.{Ready, Sends, bind_run, then_run, send_data-Sends}
use pdc_pop3d.Pop3.Actions.Reactions.{Reaction, Reacts}
use pdc_pop3d.Text.Compare.{folded}
use pdc_pop3d.Pop3.Commands.Dispatch.{get_command_iff}
use pdc_pop3d.Pop3.Commands.{
  Pop3Command, user, pass, stat, list, retr, dele, noop, rset, quit, capa, name, action,
  error_command, get_command, accept_arguments, execute, respond, parse_input,
}

module _ {D : Type 0} where
  -- One parser more is allocated.
  abbrev pub with_parser : State D → State D
  with_parser s = record s { shared = record s.shared { parsers = s.shared.parsers + 1 } }

  abbrev pub without_parser : State D → State D
  without_parser s = record s { shared = record s.shared { parsers = s.shared.parsers - 1 } }

  pub without-with_parser : (s : State D) → without_parser (with_parser s) ≡ s
  without-with_parser s =
      ap (λ n. record s { shared = record s.shared { parsers = n } }) (omega arith)

module _ {D : Type 0} (env : Env D) where
  abbrev pub free_parser : M D (Unit {0})
  free_parser = modify_shared (λ h. record h { parsers = h.parsers - 1 })

  parse_input-respond :
      (input : Bytes) (s : State D)
      → env.calloc s.shared.parsers ≡ (true, true)
      → parse_input env input s
        ≡ respond env (command_of (feed_all (reading 0 [] []) (line_of input))) (with_parser s)
  unfolding parse_input
  parse_input-respond input s h =
      ap (λ c. start (parser_init pop3_parser_automaton c.0 c.1)) h ∙ ap start parser_init-pop3
    where
      start : Option (Parser Pop3ParserData) → Option (Unit {0} × State D)
      start o = elim o [
        | none ↦ none
        | some p ↦ respond env (command_of (feed_all p (line_of input))) (with_parser s)
      ]

  line_read :
      (input w a : Bytes)
      → IsLine (line_of input) w a
      → command_of (feed_all (reading 0 [] []) (line_of input)) ≡ some (w, a)
  line_read input w a l = (command_of-feed_all_iff (line_of input) w a).1 l

  parse_input-IsLine :
      (input w a : Bytes) (s : State D)
      → env.calloc s.shared.parsers ≡ (true, true)
      → IsLine (line_of input) w a
      → parse_input env input s ≡ (execute env (get_command w) a >> free_parser) (with_parser s)
  unfolding respond
  parse_input-IsLine input w a s h l =
      parse_input-respond input s h
      ∙ ap (λ o. respond env o (with_parser s)) (line_read input w a l)

  Sends-freed :
      (text : Bytes) (s s' : State D)
      → Sends env text s s'
      → Sends env text (without_parser s) (without_parser s')
  Sends-freed text s s' h = record {
    ready = record { honest = h.ready.honest; reading = h.ready.reading; fresh = h.ready.fresh };
    all_sent = h.all_sent;
    same_closes = h.same_closes;
    counted = h.counted;
    frame = ap without_parser h.frame;
  }

  pub with_parser-Ready : (s : State D) → Ready env s → Ready env (with_parser s)
  with_parser-Ready s r = record { honest = r.honest; reading = r.reading; fresh = r.fresh }

  -- A reply, behind which the parser is freed.
  pub replied :
      (text : Bytes) (input w a : Bytes) (s : State D)
      → Ready env s
      → IsText text
      → length text ≤ max_bytes
      → env.calloc s.shared.parsers ≡ (true, true)
      → IsLine (line_of input) w a
      → execute env (get_command w) a (with_parser s) ≡ send_data env text (with_parser s)
      → (s' : State D) × (parse_input env input s ≡ some (tt, s')) × Sends env text s s'
  replied text input w a s r t f h l e =
      let (s', run, sent) = send_data-Sends env text (with_parser s) (with_parser-Ready s r) t f in
      (
        without_parser s',
        parse_input-IsLine input w a s h l
            ∙ then_run (execute env (get_command w) a) free_parser (e ∙ run),
        subst (λ t. Sends env text t (without_parser s')) (without-with_parser s)
            (Sends-freed text (with_parser s) s' sent),
      )

  -- A line that is no command line by the grammar is answered as an unknown command, and the parser
  -- that was allocated for it stays allocated. Nothing else changes but the count of bytes, the
  -- number of `send` calls and the cells of the write buffer. The peer is taken to go on reading,
  -- and memory for the parser to be had.
  pub parse_input-leak :
      (input : Bytes) (s : State D)
      → Ready env s
      → env.calloc s.shared.parsers ≡ (true, true)
      → ((w a : Bytes) → ¬ IsLine (line_of input) w a)
      → (s' : State D) × (parse_input env input s ≡ some (tt, s'))
        × Sends env Reply.err_unknown_command (with_parser s) s'
  unfolding respond
  parse_input-leak input s r h no_line =
      let (s', run, sent) =
        send_data-Sends env Reply.err_unknown_command (with_parser s) (with_parser-Ready s r)
          (omega arith) (omega arith) in
      elim (Option-cases (command_of (feed_all (reading 0 [] []) (line_of input)))) [
        | inl e ↦ (
          s',
          parse_input-respond input s h ∙ ap (λ o. respond env o (with_parser s)) e ∙ run,
          sent,
        )
        | inr ((w, a), e) ↦ absurd (no_line w a ((command_of-feed_all_iff (line_of input) w a).0 e))
      ]

  pub execute-refused :
      (c : Pop3Command) (a : Bytes) (s : State D)
      → c ≢ error_command
      → accept_arguments c a ≡ false
      → execute env c a s ≡ send_data env Reply.err_bad_argument s
  unfolding execute
  execute-refused user a s k h = rw h refl
  execute-refused pass a s k h = rw h refl
  execute-refused stat a s k h = rw h refl
  execute-refused list a s k h = rw h refl
  execute-refused retr a s k h = rw h refl
  execute-refused dele a s k h = rw h refl
  execute-refused noop a s k h = rw h refl
  execute-refused rset a s k h = rw h refl
  execute-refused quit a s k h = rw h refl
  execute-refused capa a s k h = rw h refl
  execute-refused error_command a s k h = absurd (k refl)

  execute-accepted :
      (c : Pop3Command) (a : Bytes) (s : State D)
      → c ≢ error_command
      → accept_arguments c a ≡ true
      → execute env c a s ≡ (action env c a >>= λ _. pure tt) s
  unfolding execute
  execute-accepted user a s k h = rw h refl
  execute-accepted pass a s k h = rw h refl
  execute-accepted stat a s k h = rw h refl
  execute-accepted list a s k h = rw h refl
  execute-accepted retr a s k h = rw h refl
  execute-accepted dele a s k h = rw h refl
  execute-accepted noop a s k h = rw h refl
  execute-accepted rset a s k h = rw h refl
  execute-accepted quit a s k h = rw h refl
  execute-accepted capa a s k h = rw h refl
  execute-accepted error_command a s k h = absurd (k refl)

  -- A command that is accepted: its action's reaction, and the parser is freed behind it.
  pub parse_input-Reacts :
      (input w a : Bytes) (c : Pop3Command) (s : State D) (r : Reaction D)
      → env.calloc s.shared.parsers ≡ (true, true)
      → IsLine (line_of input) w a
      → c ≢ error_command
      → folded 4 w ≡ folded 4 (name c)
      → accept_arguments c a ≡ true
      → Reacts env (action env c a) (with_parser s) r
      → (s' : State D) × (parse_input env input s ≡ some (tt, s'))
        × Sends env r.text (without_parser r.next) s'
  parse_input-Reacts input w a c s r h l k f e (s', run, sent) = (
    without_parser s',
    parse_input-IsLine input w a s h l
        ∙ then_run (execute env (get_command w) a) free_parser (
            ap (λ d. execute env d a (with_parser s)) ((get_command_iff w c k).1 f)
            ∙ execute-accepted c a (with_parser s) k e
            ∙ bind_run (action env c a) (λ _. pure tt) run),
    Sends-freed r.text r.next s' sent,
  )
