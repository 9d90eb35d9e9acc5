-- ===== src/Pop3/Automaton/Grammar.antt =====
-- The command lines that the automaton of
-- src/parser/parser_automaton/pop3_parser_automaton.c accepts, as a grammar.
use pdc_pop3d.Prelude.{
  ℕ, zero, suc, ◌≤◌, ◌<◌, ◌≡◌, refl, ap, ◌∙◌, ◌↔◌, true, false, none, some, [], ◌∷◌, ◌++◌, inl, inr,
  arith, ltb, Bool-cases, ltb→lt, lt→ltb, length, length-append, append-nil, append_assoc,
}
use pdc_pop3d.Chars.{is_letter, is_printable, is_space, is_cr, is_lf}
use pdc_pop3d.CString.{Bytes}
use pdc_pop3d.Parser.{feed_all}
use pdc_pop3d.Pop3.Automaton.{arg_max, command_of}
use pdc_pop3d.Pop3.Automaton.Data.{reading}
use pdc_pop3d.Pop3.Automaton.Descent.{
  Letters, Printables, descend_end, descend_arg, descend_cmd, command_of-descend,
}

-- What may stand behind a carriage return: nothing, or a line feed and then anything.
abbrev pub IsEnd : Bytes → Type 0
IsEnd [] = Unit
IsEnd (c ∷ _) = is_lf c ≡ true

-- The end of a line behind the bytes `b`.
pub data Closes (b line : Bytes) : Type 0 where
  plain : line ≡ b → Closes b line
  returned : (rest : Bytes) → line ≡ b ++ 13 ∷ rest → IsEnd rest → Closes b line

-- `line` is the command `w` with the argument `a`: up to four letters alone, or four letters, then
-- for an argument a space or tab and at most 248 printable characters, and then possibly the end
-- of the line.
pub data IsLine (line w a : Bytes) : Type 0 where
  word : Letters w → length w ≤ 4 → a ≡ [] → line ≡ w → IsLine line w a
  word_cr : Letters w → length w ≡ 4 → a ≡ [] → Closes w line → IsLine line w a
  with_arg :
      (s : ℕ)
      → Letters w
      → length w ≡ 4
      → is_space s ≡ true
      → Printables a
      → length a ≤ arg_max
      → Closes (w ++ s ∷ a) line
      → IsLine line w a

is_cr-eq : (c : ℕ) → is_cr c ≡ true → c ≡ 13
unfolding is_cr
is_cr-eq c h = ground arith

IsEnd-sound :
    (w a w' a' line : Bytes)
    → descend_end w a line ≡ some (w', a')
    → (w' ≡ w) × (a' ≡ a) × IsEnd line
IsEnd-sound w a w' a' [] h = ground arith
IsEnd-sound w a w' a' (c ∷ cs) h = ground arith

-- What the descent has read of an argument when it ends well.
record ArgRead (w a w' a' line : Bytes) : Type 0 where
  rest : Bytes
  same_cmd : w' ≡ w
  arg_is : a' ≡ a ++ rest
  printables : Printables rest
  closes : Closes rest line
  fits : length a ≤ arg_max → length a' ≤ arg_max

none-some : {A : Type 0} {x : A} → none ≡ some x → ⊥
none-some h = cc

Closes-cons : {b line : Bytes} (c : ℕ) → Closes b line → Closes (c ∷ b) (c ∷ line)
Closes-cons c (plain e) = plain (ap (◌∷◌ c) e)
Closes-cons c (returned rest e h) = returned rest (ap (◌∷◌ c) e) h

Closes-uncons :
    {b line : Bytes} {c : ℕ}
    → Closes (c ∷ b) line
    → (rest : Bytes) × (line ≡ c ∷ rest) × Closes b rest
Closes-uncons {b} (plain e) = (b, e, plain refl)
Closes-uncons {b} (returned rest e h) = (b ++ 13 ∷ rest, e, returned rest refl h)

ArgRead-cons :
    (w a w' a' : Bytes) (c : ℕ) (cs : Bytes)
    → is_printable c ≡ true
    → length a < arg_max
    → ArgRead w (a ++ c ∷ []) w' a' cs
    → ArgRead w a w' a' (c ∷ cs)
ArgRead-cons w a w' a' c cs p k r = record {
  rest = c ∷ r.rest;
  same_cmd = r.same_cmd;
  arg_is = r.arg_is ∙ append_assoc a (c ∷ []) r.rest;
  printables = (p, r.printables);
  closes = Closes-cons c r.closes;
  fits = λ _. r.fits (omega (arith, length-append a (c ∷ [])));
}

-- What stands behind the letters `v` of the command, which are four if anything does.
data IsTail (k : ℕ) (v a line : Bytes) : Type 0 where
  nothing : a ≡ [] → line ≡ v → IsTail k v a line
  ending : length v ≡ k → a ≡ [] → Closes v line → IsTail k v a line
  argument :
      (s : ℕ)
      → length v ≡ k
      → is_space s ≡ true
      → Printables a
      → length a ≤ arg_max
      → Closes (v ++ s ∷ a) line
      → IsTail k v a line

IsTail-cons :
    {k : ℕ} {v a line : Bytes} (c : ℕ) → IsTail k v a line → IsTail (suc k) (c ∷ v) a (c ∷ line)
IsTail-cons c (nothing e f) = nothing e (ap (◌∷◌ c) f)
IsTail-cons c (ending l e f) = ending (ap suc l) e (Closes-cons c f)
IsTail-cons c (argument s l t p m f) = argument s (ap suc l) t p m (Closes-cons c f)

arg_sound : (w a w' a' line : Bytes) → descend_arg w a line ≡ some (w', a') → ArgRead w a w' a' line
arg_sound w a w' a' [] h = record {
  rest = [];
  same_cmd = ground arith;
  arg_is = rw append-nil (ground arith);
  printables = tt;
  closes = plain refl;
  fits = λ k. ground arith;
}
arg_sound w a w' a' (c ∷ cs) h = elim (Bool-cases (is_printable c)) [
  | inl e ↦ elim (Bool-cases (ltb (length a) arg_max)) [
    | inl k ↦
        ArgRead-cons w a w' a' c cs e (ltb→lt _ _ k)
          (arg_sound w (a ++ c ∷ []) w' a' cs (rw (e, k) at h))
    | inr k ↦ absurd (none-some (rw (e, k) at h))
  ]
  | inr e ↦ elim (Bool-cases (is_cr c)) [
    | inl k ↦
        let (same, arg, ends) = IsEnd-sound w a w' a' cs (rw (e, k) at h) in
        record {
          rest = [];
          same_cmd = same;
          arg_is = rw append-nil arg;
          printables = tt;
          closes = returned cs (ap (λ x. x ∷ cs) (is_cr-eq c k)) ends;
          fits = λ l. rw arg l;
        }
    | inr k ↦ absurd (none-some (rw (e, k) at h))
  ]
]

-- What the descent has read of a command, of which `k` letters were left.
record CmdRead (k : ℕ) (w w' a' line : Bytes) : Type 0 where
  rest : Bytes
  cmd_is : w' ≡ w ++ rest
  letters : Letters rest
  short : length rest ≤ k
  tail : IsTail k rest a' line

cmd_4_sound : (w w' a' line : Bytes) → descend_cmd 0 w line ≡ some (w', a') → CmdRead 0 w w' a' line
cmd_4_sound w w' a' [] h = record {
  rest = [];
  cmd_is = rw append-nil (ground arith);
  letters = tt;
  short = omega arith;
  tail = nothing (ground arith) refl;
}
cmd_4_sound w w' a' (c ∷ cs) h = elim (Bool-cases (is_space c)) [
  | inl e ↦
      let r = arg_sound w [] w' a' cs (rw e at h) in
      record {
        rest = [];
        cmd_is = rw append-nil (ArgRead.same_cmd r);
        letters = tt;
        short = omega arith;
        tail = rw r.arg_is (
            argument c refl e r.printables (rw r.arg_is at (r.fits (omega arith)))
              (Closes-cons c r.closes));
      }
  | inr e ↦ elim (Bool-cases (is_cr c)) [
    | inl k ↦
        let (same, arg, ends) = IsEnd-sound w [] w' a' cs (rw (e, k) at h) in
        record {
          rest = [];
          cmd_is = rw append-nil same;
          letters = tt;
          short = omega arith;
          tail = ending refl arg (returned cs (ap (λ x. x ∷ cs) (is_cr-eq c k)) ends);
        }
    | inr k ↦ absurd (none-some (rw (e, k) at h))
  ]
]

cmd_sound :
    (k : ℕ) (w w' a' line : Bytes) → descend_cmd k w line ≡ some (w', a') → CmdRead k w w' a' line
cmd_sound zero w w' a' line h = cmd_4_sound w w' a' line h
cmd_sound (suc k) w w' a' [] h = record {
  rest = [];
  cmd_is = rw append-nil (ground arith);
  letters = tt;
  short = omega arith;
  tail = nothing (ground arith) refl;
}
cmd_sound (suc k) w w' a' (c ∷ cs) h = elim (Bool-cases (is_letter c)) [
  | inl e ↦
      let r = cmd_sound k (w ++ c ∷ []) w' a' cs (rw e at h) in
      record {
        rest = c ∷ r.rest;
        cmd_is = r.cmd_is ∙ append_assoc w (c ∷ []) r.rest;
        letters = (e, r.letters);
        short = omega (arith, r.short);
        tail = IsTail-cons c r.tail;
      }
  | inr e ↦ absurd (none-some (rw e at h))
]

IsLine-of_tail : {w a line : Bytes} → Letters w → length w ≤ 4 → IsTail 4 w a line → IsLine line w a
IsLine-of_tail l h (nothing e f) = word l h e f
IsLine-of_tail l h (ending k e f) = word_cr l k e f
IsLine-of_tail l h (argument s k t p m f) = with_arg s l k t p m f

descend_sound : (line w a : Bytes) → descend_cmd 4 [] line ≡ some (w, a) → IsLine line w a
descend_sound line w a h =
    let r = cmd_sound 4 [] w a line h in rw r.cmd_is (IsLine-of_tail r.letters r.short r.tail)

end_complete : (w a line : Bytes) → IsEnd line → descend_end w a line ≡ some (w, a)
end_complete w a [] h = refl
end_complete w a (c ∷ cs) h = rw h

-- A carriage return is neither printable nor a space nor a letter.
return_classes :
    (is_cr 13 ≡ true) × (is_printable 13 ≡ false) × (is_space 13 ≡ false) × (is_letter 13 ≡ false)
unfolding is_cr is_printable is_space is_letter
return_classes = (refl, refl, refl, refl)

arg_complete :
    (b w a line : Bytes)
    → Printables b
    → length (a ++ b) ≤ arg_max
    → Closes b line
    → descend_arg w a line ≡ some (w, a ++ b)
arg_complete [] w a line p h (plain e) = rw (e, append-nil)
arg_complete [] w a line p h (returned rest e k) =
    rw (e, append-nil, return_classes.1, return_classes.0) (end_complete w a rest k)
arg_complete (c ∷ b) w a line p h k =
    let (rest, e, k') = Closes-uncons k in
    let room : length a < arg_max = omega (arith, length-append a (c ∷ b)) in
    rw (e, p.0, lt→ltb (length a) arg_max room)
      (arg_complete b w (a ++ c ∷ []) rest p.1
          (omega (
            arith,
            length-append a (c ∷ b),
            length-append (a ++ c ∷ []) b,
            length-append a (c ∷ []),
          ))
          k'
        ∙ ap (λ x. some (w, x)) (append_assoc a (c ∷ []) b))

IsTail-uncons :
    {k : ℕ} {v a line : Bytes} {c : ℕ}
    → IsTail (suc k) (c ∷ v) a line
    → (rest : Bytes) × (line ≡ c ∷ rest) × IsTail k v a rest
IsTail-uncons {v = v} (nothing e f) = (v, f, nothing e refl)
IsTail-uncons (ending l e f) =
    let (rest, g, f') = Closes-uncons f in (rest, g, ending (omega arith) e f')
IsTail-uncons (argument s l t p m f) =
    let (rest, g, f') = Closes-uncons f in (rest, g, argument s (omega arith) t p m f')

tail_complete : (k : ℕ) (w a line : Bytes) → IsTail k [] a line → descend_cmd k w line ≡ some (w, a)
tail_complete k w a line (nothing e f) = rw (e, f)
tail_complete zero w a line (ending l e (plain f)) = rw (e, f)
tail_complete zero w a line (ending l e (returned rest f h)) =
    rw (e, f, return_classes.2, return_classes.0) (end_complete w [] rest h)
tail_complete zero w a line (argument s l t p m f) =
    let (rest, g, f') = Closes-uncons f in rw (g, t) (arg_complete a w [] rest p m f')
tail_complete (suc k) w a line (ending l e f) = absurd (omega arith)
tail_complete (suc k) w a line (argument s l t p m f) = absurd (omega arith)

cmd_complete :
    (v w a line : Bytes) (k : ℕ)
    → Letters v
    → length v ≤ k
    → IsTail k v a line
    → descend_cmd k w line ≡ some (w ++ v, a)
cmd_complete [] w a line k l h t = rw append-nil (tail_complete k w a line t)
cmd_complete (c ∷ v) w a line zero l h t = absurd (omega arith)
cmd_complete (c ∷ v) w a line (suc k) l h t =
    let (rest, e, t') = IsTail-uncons t in
    rw (e, l.0)
      (cmd_complete v (w ++ c ∷ []) a rest k l.1 (omega arith) t'
        ∙ ap (λ x. some (x, a)) (append_assoc w (c ∷ []) v))

descend_complete : (line w a : Bytes) → IsLine line w a → descend_cmd 4 [] line ≡ some (w, a)
descend_complete line w a (word l h e f) = cmd_complete w [] a line 4 l h (nothing e f)
descend_complete line w a (word_cr l k e f) =
    cmd_complete w [] a line 4 l (omega arith) (ending k e f)
descend_complete line w a (with_arg s l k t p m f) =
    cmd_complete w [] a line 4 l (omega arith) (argument s k t p m f)

-- The automaton, run over a line from its start with the actions and getters of the source, reads
-- the command `w` and the argument `a` exactly when the line is that command line by the grammar:
-- up to four letters alone, or four letters and then possibly a space or tab with at most 248
-- printable characters, and then possibly a carriage return that ends the line or stands before a
-- line feed.
pub command_of-feed_all_iff :
    (line w a : Bytes)
    → (command_of (feed_all (reading 0 [] []) line) ≡ some (w, a)) ↔ IsLine line w a
command_of-feed_all_iff line w a = (
  λ h. descend_sound line w a (rw command_of-descend at h),
  λ l. command_of-descend line ∙ descend_complete line w a l,
)
