-- ===== src/Parser.antt =====
-- The parser engine: src/parser/parser_automaton/parser_automaton.h and src/parser/parserADT.c.
-- `void *data` is a type parameter `D`. Whether `calloc` gives memory is an argument.
pub mod Feed
use pdc_pop3d.Prelude.{
  ℕ, ◌%◌, ◌^◌, Bool, true, false, ◌&&◌, Option, none, some, List, [], ◌∷◌, if◌then◌else◌, get_or,
}

-- `enum parser_state`
pub data ParserState : Type 0 where
  parser_reading parser_action parser_finished parser_error : ParserState

-- `struct parser_state_transition`. An action works on the parser's data in place: it returns the
-- data as it leaves them.
pub record Transition (D : Type 0) : Type 0 where
  pub when : ℕ → Bool
  pub dest : ℕ
  pub action : D → ℕ → ParserState × D

-- `struct parser_automaton`; `states_n` holds the lengths of the lists of `states`. `init` and
-- `copy` are told whether their `calloc` gave memory.
pub record Automaton (D : Type 0) : Type 0 where
  pub states : List (List (Transition D))
  pub start_state : ℕ
  pub init : Bool → Option D
  pub copy : D → Bool → Option D
  pub reset : D → D

-- `struct parserCDT`
pub record Parser (D : Type 0) : Type 0 where
  pub def : Automaton D
  pub state : ℕ
  pub parser_state : ParserState
  pub content : D

abbrev is_error : ParserState → Bool
is_error parser_error = true
is_error _ = false

module _ {D : Type 0} where
  start : Automaton D → Option D → Option (Parser D)
  start def none = none
  start def (some d) =
      some
        (record { def = def; state = def.start_state; parser_state = parser_reading; content = d })

  unfoldable pub parser_init : Automaton D → Bool → Bool → Option (Parser D)
  unfolding start
  parser_init def parser_allocated data_allocated =
      if parser_allocated then start def (def.init data_allocated) else none

  unfoldable pub parser_reset : Parser D → Parser D
  parser_reset p = record p {
    state = p.def.start_state;
    parser_state = parser_reading;
    content = p.def.reset p.content;
  }

  unfoldable pub parser_get_data : Parser D → Bool → Option D
  parser_get_data p allocated = p.def.copy p.content allocated

  -- What `parser_feed` returns after a transition whose action answered `resp`. A transition that
  -- goes on reading ends the loop too, since `matched` is set.
  answer : ParserState → Parser D → ParserState × Parser D
  answer parser_finished p =
      (if is_error p.parser_state then p.parser_state else parser_finished, p)
  answer parser_error p = (parser_error, record p { parser_state = parser_error })
  answer parser_action p = (parser_action, p)
  answer parser_reading p = (parser_reading, p)

  fire : Transition D → Parser D → ℕ → ParserState × Parser D
  unfolding answer
  fire t p c =
      let (resp, d) = t.action p.content c in
      answer resp (record p { state = t.dest % 2 ^ 8; content = d })

  -- The loop over the transitions of the current state.
  feed_from : List (Transition D) → Parser D → ℕ → ParserState × Parser D
  unfolding fire
  feed_from [] p c = (parser_reading, p)
  feed_from (t ∷ ts) p c = if t.when c then fire t p c else feed_from ts p c

  unfoldable pub parser_feed : Parser D → ℕ → ParserState × Parser D
  unfolding feed_from
  parser_feed p c = feed_from (get_or p.def.states p.state []) p c

  -- The loop of `parse_input` and of `config_parse_input` over the input: it stops at the first
  -- answer that is an error or the end.
  unfoldable pub feed_all : Parser D → List ℕ → ParserState × Parser D
  feed_all p [] = (parser_reading, p)
  feed_all p (c ∷ cs) =
      let (r, p') = parser_feed p c in
      elim r [
        | parser_finished ↦ (parser_finished, p')
        | parser_error ↦ (parser_error, p')
        | _ ↦ feed_all p' cs
      ]
