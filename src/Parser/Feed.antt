-- ===== src/Parser/Feed.antt =====
-- One step of the loop over the input, by what `parser_feed` answers.
use pdc_pop3d.Prelude.{ℕ, ◌≡◌, List, ◌∷◌, arith}
use pdc_pop3d.Parser.{Parser, parser_reading, parser_finished, parser_error, parser_feed, feed_all}

module _ {D : Type 0} where
  pub feed_all-reading :
      (p p' : Parser D) (c : ℕ) (cs : List ℕ)
      → parser_feed p c ≡ (parser_reading, p')
      → feed_all p (c ∷ cs) ≡ feed_all p' cs
  unfolding feed_all
  feed_all-reading p p' c cs e = ground arith

  pub feed_all-finished :
      (p p' : Parser D) (c : ℕ) (cs : List ℕ)
      → parser_feed p c ≡ (parser_finished, p')
      → feed_all p (c ∷ cs) ≡ (parser_finished, p')
  unfolding feed_all
  feed_all-finished p p' c cs e = ground arith

  pub feed_all-error :
      (p : Parser D) (c : ℕ) (cs : List ℕ)
      → (parser_feed p c).0 ≡ parser_error
      → (feed_all p (c ∷ cs)).0 ≡ parser_error
  unfolding feed_all
  feed_all-error p c cs e = ground arith
