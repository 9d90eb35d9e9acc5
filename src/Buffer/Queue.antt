-- ===== src/Buffer/Queue.antt =====
-- Writing and reading through src/buffer.c: bytes leave a buffer in the order in which they came.
use pdc_pop3d.Prelude.{
  ℕ, zero, suc, ◌+◌, ◌-◌, ◌≤◌, ◌<◌, ◌≡◌, refl, ap, ◌∙◌, List, [], ◌∷◌, ◌++◌, inl, inr, some, arith,
  ◌⊎◌, ltb, ltb→lt, Bool-cases, le→leb, length, get_or, set, take, drop, length-set, length-drop,
  take-set_self, drop-set, append-nil, append_assoc, pos,
}
use pdc_pop3d.Buffer.{
  Buffer, buffer_can_write, buffer_can_read, buffer_write_adv, buffer_read, buffer_write, store,
}
use pdc_pop3d.Buffer.Contents.{IsValid, contents, length-contents, buffer_read_adv_refines}

pub length-store : (cs xs : List ℕ) (i : ℕ) → length (store xs i cs) ≡ length xs
unfolding store
length-store [] xs i = refl
length-store (c ∷ cs) xs i = length-store cs (set xs i c) (suc i) ∙ length-set xs i c

-- Bytes stored just behind a window extend it.
window-store :
    (cs xs : List ℕ) (r n i : ℕ)
    → i ≡ r + n
    → i + length cs ≤ length xs
    → take (n + length cs) (drop r (store xs i cs)) ≡ take n (drop r xs) ++ cs
unfolding store
window-store [] xs r n i e h = let z : n + 0 ≡ n = omega arith in rw (z, append-nil)
window-store (c ∷ cs) xs r n i e h =
    let shift : n + suc (length cs) ≡ suc n + length cs = omega arith in
    let later =
      window-store cs (set xs i c) r (suc n) (suc i) (omega arith)
        (omega (arith, length-set xs i c)) in
    let here : take (suc n) (drop r (set xs i c)) ≡ take n (drop r xs) ++ c ∷ [] =
      rw (e, drop-set r n xs c) (take-set_self n (drop r xs) c (omega (arith, length-drop r xs))) in
    rw shift (later ∙ ap (λ l. l ++ cs) here ∙ append_assoc (take n (drop r xs)) (c ∷ []) cs)

-- The buffer after `bytes` were stored at the write pointer, which was then moved on.
abbrev pub filled : Buffer → List ℕ → Buffer
filled b cs = record b { cells = store b.cells b.write cs; write = b.write + length cs }

-- In a well-formed buffer, bytes that fit between the write pointer and the limit can be stored
-- there and handed over by `buffer_write_adv`: they are then at the back of the contents.
pub buffer_write_adv_refines :
    {b : Buffer} (cs : List ℕ)
    → IsValid b
    → length cs ≤ b.limit - b.write
    → (buffer_write_adv (record b { cells = store b.cells b.write cs }) (pos (length cs))
        ≡ some (filled b cs))
      × IsValid (filled b cs)
      × (contents (filled b cs) ≡ contents b ++ cs)
unfolding buffer_write_adv
buffer_write_adv_refines {b} cs v h =
    let room : b.write + length cs ≤ b.limit = omega arith in
    let e : b.write + length cs - b.read ≡ b.write - b.read + length cs = omega arith in
    (
      rw (le→leb (b.write + length cs) b.limit room),
      omega (arith, length-store cs b.cells b.write),
      rw e (window-store cs b.cells b.read (b.write - b.read) b.write (omega arith) (omega arith)),
    )

-- `buffer_write` puts its byte at the back of the contents if the write pointer is below the limit,
-- which leaves the read pointer and the limit alone; with the write pointer at the limit it changes
-- nothing at all. On a well-formed buffer it never fails an assertion, and the buffer stays well
-- formed.
pub buffer_write_refines :
    {b : Buffer} (c : ℕ)
    → IsValid b
    → (b' : Buffer) × (buffer_write b c ≡ some b')
      × IsValid b'
      × (((b.write < b.limit)
            × (contents b' ≡ contents b ++ c ∷ [])
            × (b'.read ≡ b.read)
            × (b'.limit ≡ b.limit))
          ⊎ ((b.write ≡ b.limit) × (b' ≡ b)))
unfolding buffer_write buffer_can_write store
buffer_write_refines {b} c v = elim (Bool-cases (ltb b.write b.limit)) [
  | inl e ↦
      let (done, w, cc') = buffer_write_adv_refines (c ∷ []) v (ground arith) in
      rw e (filled b (c ∷ []), done, w, inl (ltb→lt b.write b.limit e, cc', refl, refl))
  | inr e ↦ rw e (b, refl, v, inr (ground (arith, v), refl))
]

front_byte :
    (r n : ℕ) (xs : List ℕ)
    → 0 < n
    → r < length xs
    → get_or (take n (drop r xs)) 0 0 ≡ get_or xs r 0
front_byte r zero xs p h = absurd (omega arith)
front_byte r (suc n) [] p h = absurd (omega arith)
front_byte zero (suc n) (x ∷ xs) p h = refl
front_byte (suc r) (suc n) (x ∷ xs) p h = front_byte r (suc n) xs p (omega arith)

-- `buffer_read` returns the byte at the front and removes it; an empty buffer gives 0 and stays as
-- it is. On a well-formed buffer it never fails an assertion.
pub buffer_read_refines :
    {b : Buffer}
    → IsValid b
    → (b' : Buffer) × (buffer_read b ≡ some (get_or (contents b) 0 0, b'))
      × IsValid b'
      × (contents b' ≡ drop 1 (contents b))
unfolding buffer_read buffer_can_read
buffer_read_refines {b} v = elim (Bool-cases (ltb b.read b.write)) [
  | inl e ↦
      let (b', done, w, cc', _, _) =
        buffer_read_adv_refines 1 v (ground (arith, length-contents v)) in
      rw (e, done)
        (
          b',
          rw (front_byte b.read (b.write - b.read) b.cells (ground arith) (ground arith)),
          w,
          cc',
        )
  | inr e ↦ let z : b.write - b.read ≡ 0 = ground arith in rw (e, z) (b, refl, v, rw z)
]
