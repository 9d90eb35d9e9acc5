-- ===== src/Config/Commands/Lookup.antt =====
-- How src/parser/config_parserADT.c finds commands and object codes, beside the table of the
-- protocol.
use pdc_pop3d.Prelude.{
  ℕ, ◌≡◌, refl, sym, ap, ◌∙◌, ◌↔◌, true, false, List, [], ◌∷◌, map, Bool-cases, inl, inr, arith, ℤ,
  pos, negsuc,
}
use pdc_pop3d.CString.{Bytes, equal, equal_refl, eq_of_equal}
use pdc_pop3d.Text.{strncasecmp}
use pdc_pop3d.Text.Compare.{folded, strncasecmp_iff}
use pdc_pop3d.Config.Commands.{
  ConfigCommand, config_name, config_table, is_zero, find_config_command, get_config_command,
  object_codes, is_object_code,
}
use pdc_pop3d.Config.Commands.Outcome.{same_word, protocol, command_named, objects, is_object}

is_zero_iff : (z : ℤ) → (is_zero z ≡ true) ↔ (z ≡ pos 0)
is_zero_iff (pos n) = (λ h. ground arith, λ h. ground arith)
is_zero_iff (negsuc n) = (λ h. ground arith, λ h. ground arith)

-- The code's comparison.
pub strncasecmp-same_word : (a b : Bytes) (n : ℕ) → is_zero (strncasecmp a b n) ≡ same_word n a b
strncasecmp-same_word a b n =
    let (zero_there, zero_back) = is_zero_iff (strncasecmp a b n) in
    let (there, back) = strncasecmp_iff a b n in
    elim (Bool-cases (equal (folded n a) (folded n b))) [
      | inl e ↦ zero_back (back (eq_of_equal (folded n a) (folded n b) e)) ∙ sym e
      | inr e ↦ elim (Bool-cases (is_zero (strncasecmp a b n))) [
        | inl f ↦ absurd (
            true-false (
              sym (ap (equal (folded n a)) (sym (there (zero_there f))) ∙ equal_refl (folded n a))
              ∙ e))
        | inr f ↦ f ∙ sym e
      ]
    ]
  where
    true-false : true ≡ false → ⊥
    true-false h = cc

abbrev row : ConfigCommand → Bytes × ConfigCommand
row c = (config_name c, c)

find-named :
    (w : Bytes) (cs : List ConfigCommand) → find_config_command w cs ≡ command_named (map row cs) w
unfolding find_config_command
find-named w [] = refl
find-named w (c ∷ cs) = rw (strncasecmp-same_word w (config_name c) 6, find-named w cs) refl

pub get_config_command-named : (w : Bytes) → get_config_command w ≡ command_named protocol w
unfolding get_config_command config_name
get_config_command-named w = find-named w config_table

is_object_code-is_object : (w : Bytes) (ns : List Bytes) → is_object_code w ns ≡ is_object ns w
unfolding is_object_code
is_object_code-is_object w [] = refl
is_object_code-is_object w (n ∷ ns) =
    rw (strncasecmp-same_word w n 3, is_object_code-is_object w ns) refl

pub is_object_code-objects : (w : Bytes) → is_object_code w object_codes ≡ is_object objects w
is_object_code-objects w = is_object_code-is_object w object_codes
