-- ===== src/Buffer/Contents.antt =====
-- What a buffer holds, the documented invariant `R <= W <= limit`, and each operation of
-- src/buffer.c as an operation on a queue of bytes.
use pdc_pop3d.Prelude.{
  ℕ, ◌+◌, ◌-◌, ◌≤◌, ◌<◌, ◌≡◌, ◌⊎◌, refl, sym, ap, ◌∙◌, List, [], ◌∷◌, inl, inr, some, arith, ◌==◌,
  Bool-cases, le→leb, length, take, drop, length-take, length-drop, length-append, drop-drop,
  drop-take, take-append_le, take-all, pos,
}
use pdc_pop3d.Buffer.{Buffer, buffer_read_adv, buffer_compact, move_to_front}

-- `R <= W <= limit`, with the storage that `buffer_init` was given behind it.
pub record IsValid (b : Buffer) : Type 0 where
  pub read_le : b.read ≤ b.write
  pub write_le : b.write ≤ b.limit
  pub storage : b.limit ≤ length b.cells

-- The bytes between the two pointers, oldest first.
abbrev pub contents : Buffer → List ℕ
contents b = take (b.write - b.read) (drop b.read b.cells)

pub length-contents : {b : Buffer} → IsValid b → length (contents b) ≡ b.write - b.read
length-contents {b} v =
    omega (arith, length-take (b.write - b.read) (drop b.read b.cells), length-drop b.read b.cells)

front : (n : ℕ) (xs : List ℕ) → take (n - 0) xs ≡ take n xs
front n xs = let e : n - 0 ≡ n = omega arith in rw e

pub length-move_to_front :
    (xs : List ℕ) (r n : ℕ) → r + n ≤ length xs → length (move_to_front xs r n) ≡ length xs
unfolding move_to_front
length-move_to_front xs r n h = omega (
  arith,
  length-append (take n (drop r xs)) (drop n xs),
  length-take n (drop r xs),
  length-drop r xs,
  length-drop n xs,
)

pub take-move_to_front :
    (xs : List ℕ) (r n : ℕ) → r + n ≤ length xs → take n (move_to_front xs r n) ≡ take n (drop r xs)
unfolding move_to_front
take-move_to_front xs r n h =
    let e : length (take n (drop r xs)) ≡ n =
      omega (arith, length-take n (drop r xs), length-drop r xs) in
    take-append_le n (take n (drop r xs)) (drop n xs) (omega arith)
    ∙ take-all n (take n (drop r xs)) (omega arith)

-- In a well-formed buffer, moving the unread bytes to the front keeps them, in order, and the limit;
-- the read pointer is then at the start, and the buffer still well formed.
pub buffer_compact_refines :
    {b : Buffer}
    → IsValid b
    → IsValid (buffer_compact b)
      × (contents (buffer_compact b) ≡ contents b)
      × ((buffer_compact b).read ≡ 0)
      × ((buffer_compact b).write ≡ b.write - b.read)
      × ((buffer_compact b).limit ≡ b.limit)
unfolding buffer_compact
buffer_compact_refines {b} v =
    let n = b.write - b.read in
    elim (Bool-cases (0 == b.read)) [
      | inl e ↦ rw e (v, refl, ground arith, ground arith, refl)
      | inr e ↦ rw e (elim (Bool-cases (b.read == b.write)) [
        | inl f ↦
            rw f (omega arith, let e0 : n ≡ 0 = ground arith in rw e0, refl, ground arith, refl)
        | inr f ↦ rw f (
          omega (arith, length-move_to_front b.cells b.read n),
          front n _ ∙ take-move_to_front b.cells b.read n (omega arith),
          refl,
          refl,
          refl,
        )
      ])
    ]

-- The buffer with its read pointer moved on by `n`.
abbrev advanced : Buffer → ℕ → Buffer
advanced b n = record b { read = b.read + n }

contents-advanced :
    {b : Buffer} (n : ℕ)
    → IsValid b
    → b.read + n ≤ b.write
    → contents (advanced b n) ≡ drop n (contents b)
contents-advanced {b} n v h =
    let e : b.write - (b.read + n) ≡ b.write - b.read - n = omega arith in
    let f : n + (b.write - b.read - n) ≡ b.write - b.read = omega arith in
    let k = b.write - b.read - n in
    rw (e, ← drop-drop n b.read b.cells)
      (sym (drop-take n k (drop b.read b.cells))
        ∙ ap (λ m. drop n (take m (drop b.read b.cells))) f)

-- When the buffer runs empty both pointers are back at the start.
buffer_read_adv-Drops :
    {b : Buffer} (n : ℕ)
    → IsValid b
    → n ≤ length (contents b)
    → (b' : Buffer) × (buffer_read_adv b (pos n) ≡ some b')
      × IsValid b'
      × (contents b' ≡ drop n (contents b))
      × (b'.limit ≡ b.limit)
      × (contents b' ≡ [] → (b'.read ≡ 0) × (b'.write ≡ 0))
unfolding buffer_read_adv
buffer_read_adv-Drops {b} n v h =
    let a = advanced b n in
    let room : b.read + n ≤ b.write = omega (arith, length-contents v) in
    let w : IsValid a = omega (arith, room) in
    let (cv, cc', cr, cw, cl) = buffer_compact_refines w in
    rw (le→leb (b.read + n) b.write room) (elim (Bool-cases (b.read + n == b.write)) [
      | inl e ↦ rw e (
        buffer_compact a,
        refl,
        cv,
        cc' ∙ contents-advanced n v room,
        cl,
        λ _. (cr, ground arith),
      )
      | inr e ↦ rw e (
        a,
        refl,
        w,
        contents-advanced n v room,
        refl,
        λ z. absurd (ground (arith, length-contents w, ap length z)),
      )
    ])

-- Of a well-formed buffer `buffer_read_adv` takes as many bytes as it is told off the front, when
-- there are as many, and keeps it well formed. Then there are bytes left, or both pointers are back
-- at the start.
pub buffer_read_adv_refines :
    {b : Buffer} (n : ℕ)
    → IsValid b
    → n ≤ length (contents b)
    → (b' : Buffer) × (buffer_read_adv b (pos n) ≡ some b')
      × IsValid b'
      × (contents b' ≡ drop n (contents b))
      × (b'.limit ≡ b.limit)
      × ((0 < length (contents b')) ⊎ ((b'.read ≡ 0) × (b'.write ≡ 0)))
buffer_read_adv_refines {b} n v h =
    let (b', run, v', c, l, reset) = buffer_read_adv-Drops n v h in
    (b', run, v', c, l, left (contents b') refl reset)
  where
    left : {P : Type 0} (cs : List ℕ) {ds : List ℕ} → ds ≡ cs → (ds ≡ [] → P) → (0 < length ds) ⊎ P
    left [] e f = inr (f e)
    left (c ∷ cs) e f = inl (omega (arith, ap length e))
