-- ===== src/Pop3/Commands/Refusals.antt =====
-- The command lines that `parse_input` of src/parser/pop3_parserADT.c refuses before any action: the
-- commands are listed here by the letters and the arguments that the protocol gives them.
use pdc_pop3d.Prelude.{
  ◌<◌, ◌≡◌, ◌≢◌, refl, ap, ◌∙◌, true, false, some, List, [], ◌∷◌, ◌⊎◌, inl, inr, All, subst, sym,
  arith, length,
}
use pdc_pop3d.Chars.{is_printable}
use pdc_pop3d.CString.{Bytes, IsText, codes, strlen, cstr_of_text}
use pdc_pop3d.Text.{has_argument, hasnt_argument}
use pdc_pop3d.Text.Compare.{folded}
use pdc_pop3d.Pop3.Automaton.Descent.{Printables}
use pdc_pop3d.Pop3.Automaton.Grammar.{IsLine, word, word_cr, with_arg}
use pdc_pop3d.Pop3.Reply
use pdc_pop3d.Pop3.State.{State, Env}
use pdc_pop3d.Pop3.State.Send.{Ready, Sends}
use pdc_pop3d.Pop3.Commands.{
  Pop3Command, user, pass, stat, list, retr, dele, noop, rset, quit, capa, error_command, name,
  get_command, accept_arguments, execute, parse_input,
}
use pdc_pop3d.Pop3.Commands.Dispatch.{get_command_iff}
use pdc_pop3d.Pop3.Commands.Input.{line_of, with_parser, replied, execute-refused}

-- The commands that need an argument, those that take none, and LIST, which may have one.
abbrev pub with_argument : List Bytes
with_argument = codes "USER" ∷ codes "PASS" ∷ codes "RETR" ∷ codes "DELE" ∷ []

abbrev pub without_argument : List Bytes
without_argument = codes "STAT" ∷ codes "NOOP" ∷ codes "RSET" ∷ codes "QUIT" ∷ codes "CAPA" ∷ []

abbrev pub verbs : List Bytes
verbs =
    codes "USER"
    ∷ codes "PASS"
    ∷ codes "RETR"
    ∷ codes "DELE"
    ∷ codes "STAT"
    ∷ codes "NOOP"
    ∷ codes "RSET"
    ∷ codes "QUIT"
    ∷ codes "CAPA"
    ∷ codes "LIST"
    ∷ []

-- The word is one of these, but for the case.
abbrev pub IsOneOf : List Bytes → Bytes → Type 0
IsOneOf [] w = ⊥
IsOneOf (v ∷ vs) w = (folded 4 w ≡ folded 4 v) ⊎ IsOneOf vs w

-- A command with an argument that it must not have, or without the one that it needs.
pub data IsMisused (w a : Bytes) : Type 0 where
  missing : IsOneOf with_argument w → a ≡ [] → IsMisused w a
  unexpected : IsOneOf without_argument w → 0 < length a → IsMisused w a

Printables-IsText : (a : Bytes) → Printables a → IsText a
unfolding is_printable
Printables-IsText [] h = tt
Printables-IsText (c ∷ a) h = (ground (arith, h.0), Printables-IsText a h.1)

text-strlen : (a : Bytes) → IsText a → strlen a ≡ length a
text-strlen a h = ap length (cstr_of_text a h)

-- An argument of a command line has no NUL.
pub argument-strlen : (line w a : Bytes) → IsLine line w a → strlen a ≡ length a
argument-strlen line w a (word l f e h) = rw e refl
argument-strlen line w a (word_cr l f e h) = rw e refl
argument-strlen line w a (with_arg s l f g p k h) = text-strlen a (Printables-IsText a p)

pub has_argument_lem : (a : Bytes) → strlen a ≡ length a → 0 < length a → has_argument a ≡ true
unfolding has_argument
has_argument_lem a e h = ground (arith, e)

hasnt_argument_lem : (a : Bytes) → strlen a ≡ length a → 0 < length a → hasnt_argument a ≡ false
unfolding hasnt_argument
hasnt_argument_lem a e h = ground (arith, e)

-- A command of the table that does not take the argument.
Refuses : Bytes → Bytes → Type 0
Refuses w a =
    (c : Pop3Command) × (c ≢ error_command)
    × (folded 4 w ≡ folded 4 (name c))
    × (accept_arguments c a ≡ false)

missing-Refuses : (w : Bytes) → IsOneOf with_argument w → Refuses w []
unfolding Refuses accept_arguments has_argument name
missing-Refuses w (inl h) = (user, (λ k. cc), h, refl)
missing-Refuses w (inr (inl h)) = (pass, (λ k. cc), h, refl)
missing-Refuses w (inr (inr (inl h))) = (retr, (λ k. cc), h, refl)
missing-Refuses w (inr (inr (inr (inl h)))) = (dele, (λ k. cc), h, refl)
missing-Refuses w (inr (inr (inr (inr h)))) = absurd h

unexpected-Refuses :
    (w a : Bytes) → IsOneOf without_argument w → hasnt_argument a ≡ false → Refuses w a
unfolding Refuses accept_arguments name
unexpected-Refuses w a (inl h) e = (stat, (λ k. cc), h, e)
unexpected-Refuses w a (inr (inl h)) e = (noop, (λ k. cc), h, e)
unexpected-Refuses w a (inr (inr (inl h))) e = (rset, (λ k. cc), h, e)
unexpected-Refuses w a (inr (inr (inr (inl h)))) e = (quit, (λ k. cc), h, e)
unexpected-Refuses w a (inr (inr (inr (inr (inl h))))) e = (capa, (λ k. cc), h, e)
unexpected-Refuses w a (inr (inr (inr (inr (inr h))))) e = absurd h

misused-Refuses : (w a : Bytes) → strlen a ≡ length a → IsMisused w a → Refuses w a
misused-Refuses w a e (missing h z) = subst (Refuses w) (sym z) (missing-Refuses w h)
misused-Refuses w a e (unexpected h p) = unexpected-Refuses w a h (hasnt_argument_lem a e p)

-- A word that is none of the commands is not found.
unknown_lem : (w : Bytes) → All (λ v. folded 4 w ≢ folded 4 v) verbs → get_command w ≡ error_command
unfolding name
unknown_lem w h = go (get_command w) refl
  where
    found :
        (c : Pop3Command) → c ≢ error_command → get_command w ≡ c → folded 4 w ≡ folded 4 (name c)
    found c k e = (get_command_iff w c k).0 e

    go : (c : Pop3Command) → get_command w ≡ c → c ≡ error_command
    go user e = absurd (h.0 (found user (λ k. cc) e))
    go pass e = absurd (h.1.0 (found pass (λ k. cc) e))
    go retr e = absurd (h.1.1.0 (found retr (λ k. cc) e))
    go dele e = absurd (h.1.1.1.0 (found dele (λ k. cc) e))
    go stat e = absurd (h.1.1.1.1.0 (found stat (λ k. cc) e))
    go noop e = absurd (h.1.1.1.1.1.0 (found noop (λ k. cc) e))
    go rset e = absurd (h.1.1.1.1.1.1.0 (found rset (λ k. cc) e))
    go quit e = absurd (h.1.1.1.1.1.1.1.0 (found quit (λ k. cc) e))
    go capa e = absurd (h.1.1.1.1.1.1.1.1.0 (found capa (λ k. cc) e))
    go list e = absurd (h.1.1.1.1.1.1.1.1.1.0 (found list (λ k. cc) e))
    go error_command e = refl

module _ {D : Type 0} (env : Env D) where
  -- A command line whose word is none of the ten commands, but for the case, is answered as an
  -- unknown command, with any argument or none. Nothing else changes but the count of bytes, the
  -- number of `send` calls and the cells of the write buffer. The peer is taken to go on reading,
  -- and memory for the parser to be had.
  pub parse_input-unknown :
      (input w a : Bytes) (s : State D)
      → Ready env s
      → env.calloc s.shared.parsers ≡ (true, true)
      → IsLine (line_of input) w a
      → All (λ v. folded 4 w ≢ folded 4 v) verbs
      → (s' : State D) × (parse_input env input s ≡ some (tt, s'))
        × Sends env Reply.err_unknown_command s s'
  unfolding execute
  parse_input-unknown input w a s r h l e =
      replied env Reply.err_unknown_command input w a s r (omega arith) (omega arith) h l
        (ap (λ c. execute env c a (with_parser s)) (unknown_lem w e))

  -- USER, PASS, RETR and DELE without an argument, and STAT, NOOP, RSET, QUIT and CAPA with one, in
  -- any case of letters, are answered as a bad argument. Nothing else changes but the count of
  -- bytes, the number of `send` calls and the cells of the write buffer. The peer is taken to go
  -- on reading, and memory for the parser to be had.
  pub parse_input-bad_argument :
      (input w a : Bytes) (s : State D)
      → Ready env s
      → env.calloc s.shared.parsers ≡ (true, true)
      → IsLine (line_of input) w a
      → IsMisused w a
      → (s' : State D) × (parse_input env input s ≡ some (tt, s'))
        × Sends env Reply.err_bad_argument s s'
  unfolding Refuses
  parse_input-bad_argument input w a s r h l m =
      let (c, k, f, e) = misused-Refuses w a (argument-strlen (line_of input) w a l) m in
      replied env Reply.err_bad_argument input w a s r (omega arith) (omega arith) h l (
        ap (λ d. execute env d a (with_parser s)) ((get_command_iff w c k).1 f)
        ∙ execute-refused env c a (with_parser s) k e)
