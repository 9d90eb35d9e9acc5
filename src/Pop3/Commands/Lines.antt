-- ===== src/Pop3/Commands/Lines.antt =====
-- Whole command lines: from the bytes that `parse_input` of src/parser/pop3_parserADT.c is given to
-- the reply on the wire and the state behind it.
use pdc_pop3d.Prelude.{
  ℕ, ◌≤◌, ◌<◌, length, arith, ◌≡◌, ◌≢◌, refl, subst, true, Option, none, some, inl, inr, Bool-cases,
  [],
}
use pdc_pop3d.CString.{Bytes}
use pdc_pop3d.Text.{hasnt_argument, can_have_argument}
use pdc_pop3d.Text.Compare.{folded}
use pdc_pop3d.Pop3.State.{deleted, State, Env}
use pdc_pop3d.Pop3.State.Send.{Ready, Sends}
use pdc_pop3d.Numbers.{atoi}
use pdc_pop3d.Pop3.Files.Loading.{FitsArray}
use pdc_pop3d.Pop3.Actions.Marks.{marked}
use pdc_pop3d.Pop3.Commands.Refusals.{argument-strlen, has_argument_lem}
use pdc_pop3d.Pop3.Automaton.Grammar.{IsLine}
use pdc_pop3d.Pop3.Actions.Reactions.{
  Reaction, Reacts, logged_out, numbered, guarded, stat_reaction, list_reaction, dele_reaction,
  rset_reaction, stat_action-Reacts, list_action-Reacts, dele_action-Reacts, rset_action-Reacts,
}
use pdc_pop3d.Pop3.Commands.{
  Pop3Command, stat, list, dele, rset, error_command, name, accept_arguments, action, parse_input,
}
use pdc_pop3d.Pop3.Commands.Input.{
  line_of, with_parser, without_parser, with_parser-Ready, without-with_parser, parse_input-Reacts,
}

-- Whether the parser is allocated makes no difference to a guard.
guarded-parser :
    {D : Type 0} (s : State D) (r r' : Reaction D)
    → r'.text ≡ r.text
    → without_parser r'.next ≡ r.next
    → ((guarded (with_parser s) r').text ≡ (guarded s r).text)
      × (without_parser (guarded (with_parser s) r').next ≡ (guarded s r).next)
guarded-parser s r r' t n = elim (Bool-cases (logged_out s.conn.status)) [
  | inl e ↦ rw e (refl, without-with_parser s)
  | inr e ↦ rw e (t, n)
]

module _ {D : Type 0} (env : Env D) where
  -- The reply and the state of a reaction.
  abbrev pub Answers : Bytes → State D → Reaction D → Type 0
  Answers input s r =
      (s' : State D) × (parse_input env input s ≡ some (tt, s')) × Sends env r.text r.next s'

  pub answers :
      (input w a : Bytes) (c : Pop3Command) (s : State D) (r r' : Reaction D)
      → env.calloc s.shared.parsers ≡ (true, true)
      → IsLine (line_of input) w a
      → c ≢ error_command
      → folded 4 w ≡ folded 4 (name c)
      → accept_arguments c a ≡ true
      → Reacts env (action env c a) (with_parser s) r'
      → (r'.text ≡ r.text) × (without_parser r'.next ≡ r.next)
      → Answers input s r
  answers input w a c s r r' h l k f e acts (t, n) =
      let (s', run, sent) = parse_input-Reacts env input w a c s r' h l k f e acts in
      (s', run, subst (λ x. Sends env x r.next s') t (subst (λ x. Sends env r'.text x s') n sent))

  -- The line of a DELE with an argument, in any case of letters: before a user has logged in it is
  -- refused; then, if `atoi` of the argument is not between 1 and the number of mails, it is
  -- refused as such; else the mail of that number, counted from 1, is marked as deleted, and the
  -- reply says so. Nothing else changes but the count of bytes, the number of `send` calls and the
  -- cells of the write buffer. The peer is taken to go on reading, memory for the parser to be had,
  -- and the mails that are counted to lie in their array.
  pub parse_input-dele :
      (input w a : Bytes) (s : State D)
      → Ready env s
      → env.calloc s.shared.parsers ≡ (true, true)
      → IsLine (line_of input) w a
      → folded 4 w ≡ folded 4 (name dele)
      → 0 < length a
      → FitsArray s.conn
      → Answers input s (dele_reaction (numbered (atoi a) s.conn.num_emails) s)
  unfolding accept_arguments action
  parse_input-dele input w a s r h l f e fits =
      let i = numbered (atoi a) s.conn.num_emails in
      let given = has_argument_lem a (argument-strlen (line_of input) w a l) e in
      let room : s.conn.num_emails ≤ length s.conn.mails = omega (arith, fits.cells, fits.room) in
      answers input w a dele s (dele_reaction i s) (dele_reaction i (with_parser s)) h l (λ k. cc) f
        given (dele_action-Reacts env a (with_parser s) (with_parser-Ready env s r) room) (same i)
    where
      same :
          (o : Option ℕ)
          → ((dele_reaction o (with_parser s)).text ≡ (dele_reaction o s).text)
            × (without_parser (dele_reaction o (with_parser s)).next ≡ (dele_reaction o s).next)
      same none = guarded-parser s _ _ refl (without-with_parser s)
      same (some i) = guarded-parser s _ _ refl (without-with_parser (marked i deleted s))

  -- The line of a LIST, with any argument or none, in any case of letters: before a user has logged
  -- in it is refused; else the reply is the header with the number of mails, a line for each mail
  -- with its number, counted from 1, and its size, in order, and the final dot. Nothing else
  -- changes but the count of bytes, the number of `send` calls and the cells of the write buffer.
  -- The peer is taken to go on reading, and memory for the parser to be had.
  pub parse_input-list :
      (input w a : Bytes) (s : State D)
      → Ready env s
      → env.calloc s.shared.parsers ≡ (true, true)
      → IsLine (line_of input) w a
      → folded 4 w ≡ folded 4 (name list)
      → Answers input s (list_reaction s)
  unfolding accept_arguments action can_have_argument
  parse_input-list input w a s r h l f =
      answers input w a list s (list_reaction s) (list_reaction (with_parser s)) h l (λ k. cc) f
        refl (list_action-Reacts env a (with_parser s) (with_parser-Ready env s r))
        (guarded-parser s _ _ refl (without-with_parser s))

  -- The line of a STAT without an argument, in any case of letters: before a user has logged in it
  -- is refused; else the reply is the number of mails and the sum of their sizes, which wraps
  -- around at 2 ^ 64. Nothing else changes but the count of bytes, the number of `send` calls and
  -- the cells of the write buffer. The peer is taken to go on reading, and memory for the parser to
  -- be had.
  pub parse_input-stat :
      (input w : Bytes) (s : State D)
      → Ready env s
      → env.calloc s.shared.parsers ≡ (true, true)
      → IsLine (line_of input) w []
      → folded 4 w ≡ folded 4 (name stat)
      → Answers input s (stat_reaction s)
  unfolding accept_arguments action hasnt_argument
  parse_input-stat input w s r h l f =
      answers input w [] stat s (stat_reaction s) (stat_reaction (with_parser s)) h l (λ k. cc) f
        refl (stat_action-Reacts env [] (with_parser s) (with_parser-Ready env s r))
        (guarded-parser s _ _ refl (without-with_parser s))

  -- The line of an RSET without an argument, in any case of letters: before a user has logged in it
  -- is refused; else all mails that are counted are marked as unchanged. Nothing else changes but the
  -- count of bytes, the number of `send` calls and the cells of the write buffer. The peer is taken
  -- to go on reading, and memory for the parser to be had.
  pub parse_input-rset :
      (input w : Bytes) (s : State D)
      → Ready env s
      → env.calloc s.shared.parsers ≡ (true, true)
      → IsLine (line_of input) w []
      → folded 4 w ≡ folded 4 (name rset)
      → Answers input s (rset_reaction s)
  unfolding accept_arguments action hasnt_argument
  parse_input-rset input w s r h l f =
      answers input w [] rset s (rset_reaction s) (rset_reaction (with_parser s)) h l (λ k. cc) f
        refl (rset_action-Reacts env [] (with_parser s) (with_parser-Ready env s r))
        (guarded-parser s _ _ refl (without-with_parser _))
