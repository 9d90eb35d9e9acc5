-- ===== src/Buffer.antt =====
-- src/buffer.c and src/buffer.h: the byte buffer with a read and a write pointer. Pointers are
-- offsets from `data`, and the storage that `data` points to is the list `cells`. A failing
-- `assert` aborts the process: `none`.
pub mod Contents
pub mod Queue
mod Tests
use pdc_pop3d.Prelude.{
  ℕ, suc, ◌+◌, ◌-◌, Bool, List, [], ◌∷◌, ◌++◌, Option, none, some, ltb, leb, ◌==◌, if◌then◌else◌,
  get_or, set, take, drop, ℤ, pos, negsuc,
}

-- `struct buffer`; `data` is offset 0.
pub record Buffer : Type 0 where
  pub cells : List ℕ
  pub limit : ℕ
  pub read : ℕ
  pub write : ℕ

unfoldable pub buffer_reset : Buffer → Buffer
buffer_reset b = record b { read = 0; write = 0 }

unfoldable pub buffer_init : ℕ → List ℕ → Buffer
buffer_init n storage = record { cells = storage; limit = n; read = 0; write = 0 }

unfoldable pub buffer_can_write : Buffer → Bool
buffer_can_write b = ltb b.write b.limit

-- The write pointer, and `*nbyte`.
unfoldable pub buffer_write_ptr : Buffer → Option (ℕ × ℕ)
buffer_write_ptr b = if leb b.write b.limit then some (b.write, b.limit - b.write) else none

unfoldable pub buffer_can_read : Buffer → Bool
buffer_can_read b = ltb b.read b.write

-- The read pointer, and `*nbyte`.
unfoldable pub buffer_read_ptr : Buffer → Option (ℕ × ℕ)
buffer_read_ptr b = if leb b.read b.write then some (b.read, b.write - b.read) else none

unfoldable pub buffer_write_adv : Buffer → ℤ → Option Buffer
buffer_write_adv b (negsuc _) = some b
buffer_write_adv b (pos n) =
    let w = b.write + n in if leb w b.limit then some (record b { write = w }) else none

-- `memmove(data, from, n)` within the storage.
unfoldable pub move_to_front : List ℕ → ℕ → ℕ → List ℕ
move_to_front cells from n = take n (drop from cells) ++ drop n cells

unfoldable pub buffer_compact : Buffer → Buffer
unfolding move_to_front
buffer_compact b =
    if 0 == b.read
    then b
    else if b.read == b.write
    then record b { read = 0; write = 0 }
    else record b {
      cells = move_to_front b.cells b.read (b.write - b.read);
      read = 0;
      write = b.write - b.read;
    }

unfoldable pub buffer_read_adv : Buffer → ℤ → Option Buffer
buffer_read_adv b (negsuc _) = some b
buffer_read_adv b (pos n) =
    let b' = record b { read = b.read + n } in
    if leb b'.read b'.write
    then some (if b'.read == b'.write then buffer_compact b' else b')
    else none

unfoldable pub buffer_read : Buffer → Option (ℕ × Buffer)
unfolding buffer_can_read buffer_read_adv
buffer_read b =
    if buffer_can_read b
    then elim (buffer_read_adv b (pos 1)) [
      | none ↦ none
      | some b' ↦ some (get_or b.cells b.read 0, b')
    ]
    else some (0, b)

unfoldable pub buffer_write : Buffer → ℕ → Option Buffer
unfolding buffer_can_write buffer_write_adv
buffer_write b c =
    if buffer_can_write b
    then buffer_write_adv (record b { cells = set b.cells b.write c }) (pos 1)
    else some b

-- `memcpy(cells + i, bytes, length bytes)`.
unfoldable pub store : List ℕ → ℕ → List ℕ → List ℕ
store cells i [] = cells
store cells i (c ∷ cs) = store (set cells i c) (suc i) cs
