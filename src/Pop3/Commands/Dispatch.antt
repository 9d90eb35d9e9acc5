-- ===== src/Pop3/Commands/Dispatch.antt =====
-- Which command `get_command` of src/parser/pop3_parserADT.c finds.
use pdc_pop3d.Prelude.{
  ◌≡◌, ◌≢◌, refl, sym, ap, ◌∙◌, ◌↔◌, ◌⊎◌, inl, inr, arith, Bool, true, List, [], ◌∷◌, Bool-cases, ℤ,
  pos, negsuc,
}
use pdc_pop3d.CString.{Bytes}
use pdc_pop3d.Chars.{tolower}
use pdc_pop3d.Text.{case_loop, strncasecmp}
use pdc_pop3d.Text.Compare.{folded, strncasecmp_iff}
use pdc_pop3d.Pop3.Commands.{
  Pop3Command, user, pass, stat, list, retr, dele, noop, rset, quit, capa, error_command, name,
  table, is_zero, find_command, get_command,
}

abbrev matches : Bytes → Pop3Command → Bool
matches command c = is_zero (strncasecmp command (name c) 4)

is_zero_iff : (z : ℤ) → (is_zero z ≡ true) ↔ (z ≡ pos 0)
is_zero_iff (pos n) = (λ h. ground arith, λ h. ground arith)
is_zero_iff (negsuc n) = (λ h. ground arith, λ h. ground arith)

matches_iff :
    (command : Bytes) (c : Pop3Command)
    → (matches command c ≡ true) ↔ (folded 4 command ≡ folded 4 (name c))
matches_iff command c =
    let (there, back) = is_zero_iff (strncasecmp command (name c) 4) in
    let (eq_there, eq_back) = strncasecmp_iff command (name c) 4 in
    (λ h. eq_there (there h), λ h. back (eq_back h))

-- What is found matches, unless it is the error command.
find_command-matches :
    (command : Bytes) (cs : List Pop3Command)
    → (find_command command cs ≡ error_command) ⊎ (matches command (find_command command cs) ≡ true)
unfolding find_command
find_command-matches command [] = inl refl
find_command-matches command (c ∷ cs) = elim (Bool-cases (matches command c)) [
  | inl e ↦ rw e (inr e)
  | inr e ↦ rw e (find_command-matches command cs)
]

-- Commands that differ in nothing but the case of their first four letters find the same.
matches-folded :
    (a b : Bytes) (c : Pop3Command) → folded 4 a ≡ folded 4 b → matches a c ≡ matches b c
matches-folded a b c h =
    let (a_there, a_back) = matches_iff a c in
    let (b_there, b_back) = matches_iff b c in
    elim (Bool-cases (matches a c)) [
      | inl e ↦ e ∙ sym (b_back (sym h ∙ a_there e))
      | inr e ↦ elim (Bool-cases (matches b c)) [
        | inl f ↦ a_back (h ∙ b_there f) ∙ sym f
        | inr f ↦ e ∙ sym f
      ]
    ]

find_command-folded :
    (a b : Bytes) (cs : List Pop3Command)
    → folded 4 a ≡ folded 4 b
    → find_command a cs ≡ find_command b cs
unfolding find_command
find_command-folded a b [] h = refl
find_command-folded a b (c ∷ cs) h = rw (matches-folded a b c h, find_command-folded a b cs h)

get_command-name : (c : Pop3Command) → get_command (name c) ≡ c
unfolding get_command find_command name strncasecmp tolower case_loop
get_command-name user = refl
get_command-name pass = refl
get_command-name stat = refl
get_command-name list = refl
get_command-name retr = refl
get_command-name dele = refl
get_command-name noop = refl
get_command-name rset = refl
get_command-name quit = refl
get_command-name capa = refl
get_command-name error_command = refl

-- `get_command` finds a command of the table exactly when the text and the command's name are the
-- same in their first four characters but for the case.
pub get_command_iff :
    (command : Bytes) (c : Pop3Command)
    → c ≢ error_command
    → (get_command command ≡ c) ↔ (folded 4 command ≡ folded 4 (name c))
unfolding get_command
get_command_iff command c known = (
  λ h. elim (find_command-matches command table) [
    | inl e ↦ absurd (known (sym h ∙ e))
    | inr e ↦ (matches_iff command _).0 e ∙ ap (λ d. folded 4 (name d)) h
  ],
  λ h. find_command-folded command (name c) table h ∙ get_command-name c,
)
