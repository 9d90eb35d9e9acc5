-- ===== src/Pop3/Retr/Body.antt =====
-- The bytes that `retr_action` of src/parser/pop3_parserADT.c sends for a file, described byte by
-- byte.
use pdc_pop3d.Prelude.{
  ℕ, zero, suc, ◌≤◌, ◌≡◌, refl, sym, ap, ap₂, ◌∙◌, Option, none, some, List, [], ◌∷◌, ◌++◌,
  append_assoc, arith, ◌==◌, if◌then◌else◌, false, length, take, drop, length-drop,
}
use pdc_pop3d.CString.{Bytes}
use pdc_pop3d.Pop3.Mail.{buffer_size, stuff_byte, stuff_chunk, stuff_file, stuffed}
use pdc_pop3d.Pop3.Retr.{concat}

-- A dot is doubled at the start of a read or behind a line feed.
abbrev pub doubled : Option ℕ → Bytes
doubled none = b'.' ∷ b'.' ∷ []
doubled (some p) = if p == 10 then b'.' ∷ b'.' ∷ [] else b'.' ∷ []

-- A line feed is followed by a carriage return, unless it stands behind one.
abbrev pub ended : Option ℕ → Bytes
ended none = 10 ∷ 13 ∷ []
ended (some p) = if p == 13 then 10 ∷ [] else 10 ∷ 13 ∷ []

-- What stands on the wire for the byte `c` behind `prev`.
abbrev pub escaped : Option ℕ → ℕ → Bytes
escaped prev c = if c == b'.' then doubled prev else if c == 10 then ended prev else c ∷ []

-- What stands on the wire for a file of which `room` bytes more belong to the read that `prev` is
-- from; each read has 1024 bytes, and the last what is left.
abbrev pub wire_form : Option ℕ → ℕ → Bytes → Bytes
wire_form prev room [] = []
wire_form prev zero (c ∷ cs) = escaped none c ++ wire_form (some c) 1023 cs
wire_form prev (suc room) (c ∷ cs) = escaped prev c ++ wire_form (some c) room cs

concat-append : (ms ns : List Bytes) → concat (ms ++ ns) ≡ concat ms ++ concat ns
concat-append [] ns = refl
concat-append (m ∷ ms) ns =
    ap (λ x. m ++ x) (concat-append ms ns) ∙ sym (append_assoc m (concat ms) (concat ns))

stuff_byte-escaped : (prev : Option ℕ) (c : ℕ) → concat (stuff_byte prev c) ≡ escaped prev c
unfolding stuff_byte
stuff_byte-escaped none c = ground arith
stuff_byte-escaped (some p) c = ground arith

-- The bytes of one read, and those behind it.
wire_form-chunk :
    (prev : Option ℕ) (room : ℕ) (cs : Bytes)
    → wire_form prev room cs
      ≡ concat (stuff_chunk prev (take room cs)) ++ wire_form none 0 (drop room cs)
unfolding stuff_chunk
wire_form-chunk prev zero [] = refl
wire_form-chunk prev (suc room) [] = refl
wire_form-chunk prev zero (c ∷ cs) = refl
wire_form-chunk prev (suc room) (c ∷ cs) =
    let later = stuff_chunk (some c) (take room cs) in
    ap₂ (◌++◌) (sym (stuff_byte-escaped prev c)) (wire_form-chunk (some c) room cs)
    ∙ sym (append_assoc (concat (stuff_byte prev c)) (concat later) _)
    ∙ ap (λ x. x ++ wire_form none 0 (drop room cs)) (sym (concat-append (stuff_byte prev c) later))

stuff_file-wire_form :
    (fuel : ℕ) (file : Bytes)
    → length file ≤ fuel
    → concat (stuff_file fuel file) ≡ wire_form none 0 file
unfolding stuff_file
stuff_file-wire_form zero [] h = refl
stuff_file-wire_form zero (c ∷ cs) h = absurd (omega arith)
stuff_file-wire_form (suc fuel) [] h = refl
stuff_file-wire_form (suc fuel) (c ∷ cs) h =
    let nonempty : (suc (length cs) == 0) ≡ false = ground arith in
    let fewer : length (drop 1023 cs) ≤ fuel = omega (arith, length-drop 1023 cs) in
    let chunk = stuff_chunk none (c ∷ take 1023 cs) in
    rw nonempty (
      concat-append chunk (stuff_file fuel (drop 1023 cs))
      ∙ ap (λ x. concat chunk ++ x) (stuff_file-wire_form fuel (drop 1023 cs) fewer)
      ∙ sym (wire_form-chunk none buffer_size (c ∷ cs)))

pub stuffed-wire_form : (file : Bytes) → concat (stuffed file) ≡ wire_form none 0 file
unfolding stuffed
stuffed-wire_form file = stuff_file-wire_form (length file) file (omega arith)
