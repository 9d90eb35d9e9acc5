-- ===== src/Config/Automaton/Feeds.antt =====
-- One character fed to the automaton of a configuration request.
use pdc_pop3d.Prelude.{
  ℕ, zero, suc, ◌+◌, ◌<◌, ◌≡◌, refl, ◌∙◌, Option, Bool, true, false, [], ◌∷◌, arith, get_or, some,
  none, ap, ◌%◌, ◌^◌,
}
use pdc_pop3d.Chars.{is_lf, is_any}
use pdc_pop3d.CString.{Bytes}
use pdc_pop3d.Parser.{ParserState, parser_reading, parser_feed, feed_all}
use pdc_pop3d.Parser.Feed.{feed_all-reading, feed_all-finished, feed_all-error}
use pdc_pop3d.Config.Automaton.{
  ConfigParserData, row, st_token, st_operation, st_object_code, config_states, end_action,
  err_action, Request, request_of,
}
use pdc_pop3d.Config.Automaton.Data.{
  holding, reading, Fits, request_of-reading, request_of-finished,
}

-- The states that read a character of the token, the operation and the object code.
pub token-row : (s : ℕ) → s < 10 → get_or config_states s [] ≡ st_token (s + 1)
token-row zero h = refl
token-row (suc zero) h = refl
token-row (suc (suc zero)) h = refl
token-row (suc (suc (suc zero))) h = refl
token-row (suc (suc (suc (suc zero)))) h = refl
token-row (suc (suc (suc (suc (suc zero))))) h = refl
token-row (suc (suc (suc (suc (suc (suc zero)))))) h = refl
token-row (suc (suc (suc (suc (suc (suc (suc zero))))))) h = refl
token-row (suc (suc (suc (suc (suc (suc (suc (suc zero)))))))) h = refl
token-row (suc (suc (suc (suc (suc (suc (suc (suc (suc zero))))))))) h = refl
token-row (suc (suc (suc (suc (suc (suc (suc (suc (suc (suc n)))))))))) h = absurd (omega arith)

pub operation-row : (s : ℕ) → s < 3 → get_or config_states (11 + s) [] ≡ st_operation (12 + s)
operation-row zero h = refl
operation-row (suc zero) h = refl
operation-row (suc (suc zero)) h = refl
operation-row (suc (suc (suc n))) h = absurd (omega arith)

pub object_code-row : (s : ℕ) → s < 3 → get_or config_states (15 + s) [] ≡ st_object_code (16 + s)
object_code-row zero h = refl
object_code-row (suc zero) h = refl
object_code-row (suc (suc zero)) h = refl
object_code-row (suc (suc (suc n))) h = absurd (omega arith)

-- What is read off the rest of a request in state `s`.
abbrev pub run : ℕ → Request → Bytes → Option Request
run s r line = request_of (feed_all (reading s r) line)

pub run-nil : (s : ℕ) (r : Request) → Fits r → run s r [] ≡ some r
unfolding feed_all
run-nil s r f = request_of-reading s r f

module _ (s next : ℕ) (class : ℕ → Bool)
    (act : ConfigParserData → ℕ → ParserState × ConfigParserData)
    (row_is : get_or config_states s [] ≡ row class next act) (r : Request) (c : ℕ)
    (cs : Bytes) where
  -- The character is of the row's class.
  pub run-class :
      (r' : Request)
      → next < 2 ^ 8
      → class c ≡ true
      → act (holding r) c ≡ (parser_reading, holding r')
      → run s r (c ∷ cs) ≡ run next r' cs
  run-class r' small h a =
      let kept : next % 2 ^ 8 ≡ next = omega arith in
      ap request_of (
        feed_all-reading (reading s r) (reading next r') c cs
          (unfold parser_feed in rw (row_is, h, a, kept) refl))

  -- The line feed, which ends the request.
  pub run-lf : class c ≡ false → is_lf c ≡ true → Fits r → run s r (c ∷ cs) ≡ some r
  run-lf h l f =
      ap request_of (
        feed_all-finished (reading s r) (reading 20 r) c cs
          (unfold parser_feed end_action in rw (row_is, h, l) refl))
      ∙ request_of-finished 20 r f

  -- Any other character.
  pub run-other : class c ≡ false → is_lf c ≡ false → run s r (c ∷ cs) ≡ none
  unfolding request_of
  run-other h l =
      let e =
        feed_all-error (reading s r) c cs
          (unfold parser_feed err_action is_any in rw (row_is, h, l) refl) in
      ground (arith, e)
