-- ===== src/Pop3/Tests/Commands.antt =====
-- Command lines.
use pdc_pop3d.Prelude.{
  ◌≡◌, ◌↔◌, ◌<◌, ◌+◌, refl, sym, ◌∙◌, ◌≢◌, false, none, some, [], ◌∷◌, ◌++◌, arith, true, All, inl,
  inr, subst,
}
use pdc_pop3d.Chars.{tolower, is_cr, is_lf, is_letter, is_printable, is_space}
use pdc_pop3d.CString.{Bytes, codes, crlf, equal, equal_refl}
use pdc_pop3d.Numbers.{decimal, digits}
use pdc_pop3d.Parser.{feed_all}
use pdc_pop3d.Text.{u_strlen}
use pdc_pop3d.Text.Compare.{folded}
use pdc_pop3d.Pop3.Automaton.{command_of}
use pdc_pop3d.Pop3.Automaton.Data.{reading}
use pdc_pop3d.Pop3.Automaton.Grammar.{
  IsLine, word, word_cr, with_arg, returned, command_of-feed_all_iff,
}
use pdc_pop3d.Pop3.Automaton.Descent.{command_of-descend}
use pdc_pop3d.Pop3.Reply
use pdc_pop3d.Pop3.State.{State}
use pdc_pop3d.Pop3.State.Send.{Sends}
use pdc_pop3d.Pop3.Actions.{mail_index}
use pdc_pop3d.Pop3.Actions.Index.{mail_index-decimal_iff}
use pdc_pop3d.Pop3.Actions.Reactions.{
  numbered, stat_reaction, list_reaction, dele_reaction, rset_reaction,
}
use pdc_pop3d.Pop3.Commands.{stat, list, rset, dele, error_command, name, get_command, parse_input}
use pdc_pop3d.Pop3.Commands.Dispatch.{get_command_iff}
use pdc_pop3d.Pop3.Commands.Input.{line_of, with_parser, parse_input-leak}
use pdc_pop3d.Numbers.{atoi}
use pdc_pop3d.Pop3.Commands.Refusals.{verbs, missing, parse_input-unknown, parse_input-bad_argument}
use pdc_pop3d.Pop3.Retr.Output.{retr_reaction}
use pdc_pop3d.Pop3.Commands.Retrieval.{parse_input-retr}
use pdc_pop3d.Pop3.Commands.Lines.{
  Answers, parse_input-dele, parse_input-list, parse_input-stat, parse_input-rset,
}
use pdc_pop3d.Pop3.Tests.{env, state, client, state-Ready, client-FitsArray}

abbrev dele_line : Bytes
dele_line = codes "dele 1" ++ crlf

command_of_example :
    (command_of (feed_all (reading 0 [] []) dele_line) ≡ some (codes "dele", codes "1"))
    ↔ IsLine dele_line (codes "dele") (codes "1")
command_of_example = command_of-feed_all_iff dele_line (codes "dele") (codes "1")

dele_line-IsLine : IsLine (line_of dele_line) (codes "dele") (codes "1")
unfolding u_strlen is_letter is_printable is_space is_lf
dele_line-IsLine =
    with_arg 32 (refl, (refl, (refl, (refl, tt)))) refl refl (refl, tt) (omega arith)
      (returned (10 ∷ []) refl refl)

dele_folded : folded 4 (codes "dele") ≡ folded 4 (name dele)
unfolding name tolower
dele_folded = refl

parse_input-dele_example :
    Answers env dele_line state
      (dele_reaction (numbered (atoi (codes "1")) client.num_emails) state)
parse_input-dele_example =
    parse_input-dele env dele_line (codes "dele") (codes "1") state state-Ready refl
      dele_line-IsLine dele_folded (omega arith) client-FitsArray

-- The word of a command, alone on its line.
abbrev line : Bytes → Bytes
line w = w ++ crlf

list_line-IsLine : IsLine (line_of (line (codes "LIST"))) (codes "LIST") []
unfolding u_strlen is_letter is_lf
list_line-IsLine =
    word_cr (refl, (refl, (refl, (refl, tt)))) refl refl (returned (10 ∷ []) refl refl)

stat_line-IsLine : IsLine (line_of (line (codes "sTaT"))) (codes "sTaT") []
unfolding u_strlen is_letter is_lf
stat_line-IsLine =
    word_cr (refl, (refl, (refl, (refl, tt)))) refl refl (returned (10 ∷ []) refl refl)

stat_folded : folded 4 (codes "sTaT") ≡ folded 4 (name stat)
unfolding name tolower
stat_folded = refl

list_folded : folded 4 (codes "LIST") ≡ folded 4 (name list)
unfolding name tolower
list_folded = refl

rset_line-IsLine : IsLine (line_of (line (codes "RSET"))) (codes "RSET") []
unfolding u_strlen is_letter is_lf
rset_line-IsLine =
    word_cr (refl, (refl, (refl, (refl, tt)))) refl refl (returned (10 ∷ []) refl refl)

rset_folded : folded 4 (codes "RSET") ≡ folded 4 (name rset)
unfolding name tolower
rset_folded = refl

parse_input-list_example : Answers env (line (codes "LIST")) state (list_reaction state)
parse_input-list_example =
    parse_input-list env (line (codes "LIST")) (codes "LIST") [] state state-Ready refl
      list_line-IsLine list_folded

parse_input-stat_example : Answers env (line (codes "sTaT")) state (stat_reaction state)
parse_input-stat_example =
    parse_input-stat env (line (codes "sTaT")) (codes "sTaT") state state-Ready refl
      stat_line-IsLine stat_folded

parse_input-rset_example : Answers env (line (codes "RSET")) state (rset_reaction state)
parse_input-rset_example =
    parse_input-rset env (line (codes "RSET")) (codes "RSET") state state-Ready refl
      rset_line-IsLine rset_folded

-- A fifth letter behind a command.
long_line-rejected : command_of (feed_all (reading 0 [] []) (line_of (codes "QUITE"))) ≡ none
long_line-rejected =
    command_of-descend (line_of (codes "QUITE")) ∙ unfold u_strlen is_letter is_space is_cr in refl

none-some : {x : Bytes × Bytes} → none ≡ some x → ⊥
none-some h = cc

long-IsLine-no-IsLine : (w a : Bytes) → ¬ IsLine (line_of (codes "QUITE")) w a
long-IsLine-no-IsLine w a l =
    none-some (sym long_line-rejected ∙ (command_of-feed_all_iff (line_of (codes "QUITE")) w a).1 l)

parse_input-leak_example :
    (s' : State (Unit {0})) × (parse_input env (codes "QUITE") state ≡ some (tt, s'))
    × Sends env Reply.err_unknown_command (with_parser state) s'
parse_input-leak_example =
    parse_input-leak env (codes "QUITE") state state-Ready refl long-IsLine-no-IsLine

spam-IsLine : IsLine (line_of (codes "spam")) (codes "spam") []
unfolding u_strlen is_letter is_lf
spam-IsLine = word (refl, (refl, (refl, (refl, tt)))) (omega arith) refl refl

differs : (a b : Bytes) → equal a b ≡ false → a ≢ b
differs a b e h = true-false (sym (subst (λ x. equal a x ≡ true) h (equal_refl a)) ∙ e)
  where
    true-false : true ≡ false → ⊥
    true-false h = cc

spam_unknown : All (λ v. folded 4 (codes "spam") ≢ folded 4 v) verbs
unfolding tolower equal
spam_unknown = (
  differs _ _ refl,
  (
    differs _ _ refl,
    (
      differs _ _ refl,
      (
        differs _ _ refl,
        (
          differs _ _ refl,
          (
            differs _ _ refl,
            (differs _ _ refl, (differs _ _ refl, (differs _ _ refl, (differs _ _ refl, tt)))),
          ),
        ),
      ),
    ),
  ),
)

parse_input-unknown_example :
    (s' : State (Unit {0})) × (parse_input env (codes "spam") state ≡ some (tt, s'))
    × Sends env Reply.err_unknown_command state s'
parse_input-unknown_example =
    parse_input-unknown env (codes "spam") (codes "spam") [] state state-Ready refl spam-IsLine
      spam_unknown

dele_known : dele ≢ error_command
dele_known h = cc

dele_word-IsLine : IsLine (line_of (line (codes "DELE"))) (codes "DELE") []
unfolding u_strlen is_letter is_lf
dele_word-IsLine =
    word_cr (refl, (refl, (refl, (refl, tt)))) refl refl (returned (10 ∷ []) refl refl)

parse_input-bad_argument_example :
    (s' : State (Unit {0})) × (parse_input env (line (codes "DELE")) state ≡ some (tt, s'))
    × Sends env Reply.err_bad_argument state s'
parse_input-bad_argument_example =
    parse_input-bad_argument env (line (codes "DELE")) (codes "DELE") [] state state-Ready refl
      dele_word-IsLine (missing (inr (inr (inr (inl refl)))) refl)

get_command_example :
    (get_command (codes "Dele") ≡ dele) ↔ (folded 4 (codes "Dele") ≡ folded 4 (name dele))
get_command_example = get_command_iff (codes "Dele") dele dele_known

mail_index_example : (mail_index (decimal (0 + 1)) 1 ≡ some 0) ↔ (0 < 1)
mail_index_example = mail_index-decimal_iff 0 1 (omega arith)

abbrev retr_line : Bytes
retr_line = codes "Retr 1" ++ crlf

retr_line-IsLine : IsLine (line_of retr_line) (codes "Retr") (decimal (0 + 1))
unfolding u_strlen is_letter is_printable is_space is_lf decimal digits
retr_line-IsLine =
    with_arg 32 (refl, (refl, (refl, (refl, tt)))) refl refl (refl, tt) (omega arith)
      (returned (10 ∷ []) refl refl)

retr_folded : folded 4 (codes "Retr") ≡ folded 4 (codes "RETR")
unfolding tolower
retr_folded = refl

parse_input-retr_example :
    Answers env retr_line state (retr_reaction env 0 (codes ".Hi" ++ crlf) state)
parse_input-retr_example =
    parse_input-retr env retr_line (codes "Retr") (codes ".Hi" ++ crlf) 0 state state-Ready refl
      retr_line-IsLine retr_folded client-FitsArray refl (omega arith) refl (omega arith) refl
