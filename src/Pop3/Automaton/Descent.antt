-- ===== src/Pop3/Automaton/Descent.antt =====
-- The automaton of a command line reads what a recursive descent over the line reads.
use pdc_pop3d.Prelude.{
  ℕ, zero, suc, ◌+◌, ◌≤◌, ◌<◌, ◌≡◌, refl, true, false, Option, none, some, [], ◌∷◌, ◌++◌, inl, inr,
  arith, ltb, if◌then◌else◌, Bool-cases, ltb→lt, All-concat, length, length-append, All,
}
use pdc_pop3d.Chars.{is_letter, is_printable, is_space, is_cr, is_lf, is_any}
use pdc_pop3d.CString.{Bytes}
use pdc_pop3d.Parser.{parser_reading, parser_finished, parser_error, parser_feed, feed_all}
use pdc_pop3d.Parser.Feed.{feed_all-reading, feed_all-finished, feed_all-error}
use pdc_pop3d.Pop3.Automaton.{
  cmd_max, arg_max, arg_action, err_action, end_action, def_action, command_of,
}
use pdc_pop3d.Pop3.Automaton.Data.{
  reading, cmd_action_lem, arg_action_lem, IsText-of_letters, IsText-of_printables,
  get_pop3_cmd_lem, get_pop3_arg_lem,
}

abbrev pub Read : Type 0
Read = Option (Bytes × Bytes)

-- Behind a carriage return: the end of the line, or a line feed with anything behind it.
abbrev pub descend_end : Bytes → Bytes → Bytes → Read
descend_end w a [] = some (w, a)
descend_end w a (c ∷ cs) = if is_lf c then some (w, a) else none

-- In the argument, of which `a` was read.
abbrev pub descend_arg : Bytes → Bytes → Bytes → Read
descend_arg w a [] = some (w, a)
descend_arg w a (c ∷ cs) =
    if is_printable c
    then if ltb (length a) arg_max then descend_arg w (a ++ c ∷ []) cs else none
    else if is_cr c
    then descend_end w a cs
    else none

-- In the command, of which `w` was read and `k` letters are left.
abbrev pub descend_cmd : ℕ → Bytes → Bytes → Read
descend_cmd k w [] = some (w, [])
descend_cmd zero w (c ∷ cs) =
    if is_space c then descend_arg w [] cs else if is_cr c then descend_end w [] cs else none
descend_cmd (suc k) w (c ∷ cs) = if is_letter c then descend_cmd k (w ++ c ∷ []) cs else none

abbrev pub Letters : Bytes → Type 0
Letters = All (λ c. is_letter c ≡ true)

abbrev pub Printables : Bytes → Type 0
Printables = All (λ c. is_printable c ≡ true)

-- The words that a state of the automaton may hold.
record Fits (w a : Bytes) : Type 0 where
  letters : Letters w
  cmd_fits : length w ≤ cmd_max
  printables : Printables a
  arg_fits : length a ≤ arg_max

command_of_reading :
    (s : ℕ) (w a : Bytes) → Fits w a → command_of (parser_reading, reading s w a) ≡ some (w, a)
unfolding command_of
command_of_reading s w a f = rw (
  get_pop3_cmd_lem s w a (IsText-of_letters w f.letters) f.cmd_fits,
  get_pop3_arg_lem s w a (IsText-of_printables a f.printables) f.arg_fits,
)

command_of_finished :
    (s : ℕ) (w a : Bytes) → Fits w a → command_of (parser_finished, reading s w a) ≡ some (w, a)
unfolding command_of
command_of_finished s w a f = command_of_reading s w a f

abbrev run : ℕ → Bytes → Bytes → Bytes → Read
run s w a line = command_of (feed_all (reading s w a) line)

run-error :
    (s : ℕ) (w a : Bytes) (c : ℕ) (cs : Bytes)
    → (parser_feed (reading s w a) c).0 ≡ parser_error
    → run s w a (c ∷ cs) ≡ none
unfolding command_of
run-error s w a c cs e = ground (arith, feed_all-error (reading s w a) c cs e)

run-mayend : (w a line : Bytes) → Fits w a → run 6 w a line ≡ descend_end w a line
run-mayend w a [] f = unfold feed_all in command_of_reading 6 w a f
run-mayend w a (c ∷ cs) f = elim (Bool-cases (is_lf c)) [
  | inl e ↦
      rw
        (
          e,
          feed_all-finished (reading 6 w a) (reading 7 w a) c cs
              (unfold parser_feed end_action in ground arith),
        )
        (command_of_finished 7 w a f)
  | inr e ↦ rw e (run-error 6 w a c cs (unfold parser_feed err_action is_any in ground arith))
]

-- `Fits`, with one character more.
Fits-arg :
    {w a : Bytes} (c : ℕ)
    → Fits w a
    → is_printable c ≡ true
    → length a < arg_max
    → Fits w (a ++ c ∷ [])
Fits-arg {w} {a} c f p h = record {
  letters = f.letters;
  cmd_fits = f.cmd_fits;
  printables = All-concat (λ x. is_printable x ≡ true) a c f.printables p;
  arg_fits = omega (arith, length-append a (c ∷ []));
}

Fits-cmd :
    {w : Bytes} (c : ℕ)
    → Fits w []
    → is_letter c ≡ true
    → length w < cmd_max
    → Fits (w ++ c ∷ []) []
Fits-cmd {w} c f p h = record {
  letters = All-concat (λ x. is_letter x ≡ true) w c f.letters p;
  cmd_fits = omega (arith, length-append w (c ∷ []));
  printables = tt;
  arg_fits = f.arg_fits;
}

run-arg : (w a line : Bytes) → Fits w a → run 5 w a line ≡ descend_arg w a line
run-arg w a [] f = unfold feed_all in command_of_reading 5 w a f
run-arg w a (c ∷ cs) f = elim (Bool-cases (is_printable c)) [
  | inl e ↦ elim (Bool-cases (ltb (length a) arg_max)) [
    | inl h ↦
        rw
          (
            e,
            h,
            feed_all-reading (reading 5 w a) (reading 5 w (a ++ c ∷ [])) c cs
                (unfold parser_feed in ground (arith, arg_action_lem w a c (ltb→lt _ _ h))),
          )
          (run-arg w (a ++ c ∷ []) cs (Fits-arg c f e (ltb→lt _ _ h)))
    | inr h ↦ rw (e, h) (run-error 5 w a c cs (unfold parser_feed arg_action in ground arith))
  ]
  | inr e ↦ elim (Bool-cases (is_cr c)) [
    | inl h ↦
        rw
          (
            e,
            h,
            feed_all-reading (reading 5 w a) (reading 6 w a) c cs
                (unfold parser_feed def_action in ground arith),
          )
          (run-mayend w a cs f)
    | inr h ↦
        rw (e, h) (run-error 5 w a c cs (unfold parser_feed err_action is_any in ground arith))
  ]
]

-- The four states that read a letter of the command.
feed-letter :
    (k : ℕ) (w : Bytes) (c : ℕ)
    → length w ≡ k
    → k < 4
    → is_letter c ≡ true
    → parser_feed (reading k w []) c ≡ (parser_reading, reading (k + 1) (w ++ c ∷ []) [])
unfolding parser_feed
feed-letter zero w c e h l = ground (arith, cmd_action_lem w [] c (omega arith))
feed-letter (suc zero) w c e h l = ground (arith, cmd_action_lem w [] c (omega arith))
feed-letter (suc (suc zero)) w c e h l = ground (arith, cmd_action_lem w [] c (omega arith))
feed-letter (suc (suc (suc zero))) w c e h l = ground (arith, cmd_action_lem w [] c (omega arith))
feed-letter (suc (suc (suc (suc k)))) w c e h l = absurd (omega arith)

feed_not_letter :
    (k : ℕ) (w : Bytes) (c : ℕ)
    → k < 4
    → is_letter c ≡ false
    → (parser_feed (reading k w []) c).0 ≡ parser_error
unfolding parser_feed err_action is_any
feed_not_letter zero w c h l = ground arith
feed_not_letter (suc zero) w c h l = ground arith
feed_not_letter (suc (suc zero)) w c h l = ground arith
feed_not_letter (suc (suc (suc zero))) w c h l = ground arith
feed_not_letter (suc (suc (suc (suc k)))) w c h l = absurd (omega arith)

run-cmd_4 : (w line : Bytes) → Fits w [] → run 4 w [] line ≡ descend_cmd 0 w line
run-cmd_4 w [] f = unfold feed_all in command_of_reading 4 w [] f
run-cmd_4 w (c ∷ cs) f = elim (Bool-cases (is_space c)) [
  | inl e ↦
      rw
        (
          e,
          feed_all-reading (reading 4 w []) (reading 5 w []) c cs
              (unfold parser_feed def_action in ground arith),
        )
        (run-arg w [] cs f)
  | inr e ↦ elim (Bool-cases (is_cr c)) [
    | inl h ↦
        rw
          (
            e,
            h,
            feed_all-reading (reading 4 w []) (reading 6 w []) c cs
                (unfold parser_feed def_action in ground arith),
          )
          (run-mayend w [] cs f)
    | inr h ↦
        rw (e, h) (run-error 4 w [] c cs (unfold parser_feed err_action is_any in ground arith))
  ]
]

run-cmd :
    (k s : ℕ) (w line : Bytes)
    → length w ≡ s
    → s + k ≡ 4
    → Fits w []
    → run s w [] line ≡ descend_cmd k w line
run-cmd zero s w line e q f = let z : s ≡ 4 = omega arith in rw z (run-cmd_4 w line f)
run-cmd (suc k) s w [] e q f = unfold feed_all in command_of_reading s w [] f
run-cmd (suc k) s w (c ∷ cs) e q f = elim (Bool-cases (is_letter c)) [
  | inl l ↦
      rw
        (
          l,
          feed_all-reading (reading s w []) (reading (s + 1) (w ++ c ∷ []) []) c cs
              (feed-letter s w c e (omega arith) l),
        )
        (run-cmd k (s + 1) (w ++ c ∷ []) cs (omega (arith, length-append w (c ∷ []))) (omega arith)
          (Fits-cmd c f l (omega arith)))
  | inr l ↦ rw l (run-error s w [] c cs (feed_not_letter s w c (omega arith) l))
]

-- The automaton, its actions and its getters read what the descent reads.
pub command_of-descend :
    (line : Bytes) → command_of (feed_all (reading 0 [] []) line) ≡ descend_cmd 4 [] line
command_of-descend line =
    run-cmd 4 0 [] line refl refl
      (record { letters = tt; cmd_fits = omega arith; printables = tt; arg_fits = omega arith })
