-- ===== src/Pop3/Mail.antt =====
-- Sending a message: the byte stuffing of `retr_action` and `transform_completion` in
-- src/parser/pop3_parserADT.c.
pub mod Stuffing
use pdc_pop3d.Prelude.{
  ℕ, zero, suc, Bool, true, false, ◌&&◌, ◌||◌, not, Option, none, some, List, [], ◌∷◌, ◌++◌, ◌==◌,
  if◌then◌else◌, length, take, drop,
}
use pdc_pop3d.CString.{Bytes}

abbrev pub buffer_size : ℕ
buffer_size = 1024

-- `i == 0 || buffer[i - 1] == c`
abbrev pub starts_or_follows : Option ℕ → ℕ → Bool
starts_or_follows none c = true
starts_or_follows (some p) c = p == c

-- `i == 0 || buffer[i - 1] != c`
abbrev pub starts_or_not : Option ℕ → ℕ → Bool
starts_or_not none c = true
starts_or_not (some p) c = not (p == c)

-- What the body of the inner loop writes for one byte, each as a write of its own; `prev` is
-- `buffer[i - 1]`, or nothing at `i == 0`.
unfoldable pub stuff_byte : Option ℕ → ℕ → List Bytes
stuff_byte prev c =
    (if c == b'.' && starts_or_follows prev 10 then (b'.' ∷ []) ∷ [] else [])
    ++ ((c ∷ []) ∷ [])
    ++ (if c == 10 && starts_or_not prev 13 then (13 ∷ []) ∷ [] else [])

-- The inner loop over the bytes of one `fread`.
unfoldable pub stuff_chunk : Option ℕ → Bytes → List Bytes
stuff_chunk prev [] = []
stuff_chunk prev (c ∷ cs) = stuff_byte prev c ++ stuff_chunk (some c) cs

-- The outer loop: `fread` gives `BUFFER_SIZE` bytes at a time, and what is left at the end.
unfoldable pub stuff_file : ℕ → Bytes → List Bytes
stuff_file zero file = []
stuff_file (suc fuel) file =
    let rest = stuff_file fuel (drop buffer_size file) in
    if length file == 0 then [] else stuff_chunk none (take buffer_size file) ++ rest

-- A chunk holds a byte at least, so that as many rounds as there are bytes are enough.
unfoldable pub stuffed : Bytes → List Bytes
stuffed file = stuff_file (length file) file
