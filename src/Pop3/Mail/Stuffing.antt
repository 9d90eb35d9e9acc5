-- ===== src/Pop3/Mail/Stuffing.antt =====
-- What the byte stuffing of `retr_action` in src/parser/pop3_parserADT.c promises for a message
-- whose lines end with CR LF: the receiver's removal of the dots gives the message back.
use pdc_pop3d.Prelude.{
  ℕ, zero, suc, ◌≤◌, ◌≡◌, ◌≢◌, refl, sym, ap, ◌∙◌, Bool, true, false, ◌&&◌, ◌||◌, Option, none,
  some, List, [], ◌∷◌, ◌++◌, append-nil, append_assoc, arith, ◌==◌, if◌then◌else◌, length, take-all,
  drop-all,
}
use pdc_pop3d.CString.{Bytes}
use pdc_pop3d.Pop3.Mail.{
  buffer_size, starts_or_follows, stuff_byte, stuff_chunk, stuff_file, stuffed,
}

abbrev pub concat : List Bytes → Bytes
concat [] = []
concat (m ∷ ms) = m ++ concat ms

pub concat-append : (ms ns : List Bytes) → concat (ms ++ ns) ≡ concat ms ++ concat ns
concat-append [] ns = refl
concat-append (m ∷ ms) ns =
    ap (λ x. m ++ x) (concat-append ms ns) ∙ sym (append_assoc m (concat ms) (concat ns))

-- A receiver of a multi-line reply (RFC 1939): a dot at the start of a line is taken off; the flag
-- says whether a line starts here.
abbrev pub unstuff : Bool → Bytes → Bytes
unstuff start [] = []
unstuff start (c ∷ cs) = if start && c == b'.' then unstuff false cs else c ∷ unstuff (c == 10) cs

-- Each line feed stands behind a carriage return; `prev` is the byte before.
abbrev pub IsCrlf : Option ℕ → Bytes → Type 0
IsCrlf prev [] = Unit
IsCrlf prev (c ∷ cs) = (c ≡ 10 → prev ≡ some 13) × IsCrlf (some c) cs

stuff_byte_lem :
    (prev : Option ℕ) (c : ℕ)
    → (c ≡ 10 → prev ≡ some 13)
    → concat (stuff_byte prev c)
      ≡ (if c == b'.' && starts_or_follows prev 10 then b'.' ∷ c ∷ [] else c ∷ [])
unfolding stuff_byte
stuff_byte_lem none c h = ground (arith, h)
stuff_byte_lem (some p) c h = ground (arith, h)

unstuff-stuff_chunk :
    (prev : Option ℕ) (cs : Bytes)
    → IsCrlf prev cs
    → unstuff (starts_or_follows prev 10) (concat (stuff_chunk prev cs)) ≡ cs
unfolding stuff_chunk
unstuff-stuff_chunk prev [] h = refl
unstuff-stuff_chunk prev (c ∷ cs) h =
    let ih = unstuff-stuff_chunk (some c) cs h.1 in
    rw (concat-append, stuff_byte_lem prev c h.0) (go (starts_or_follows prev 10) ih)
  where
    go :
        (start : Bool)
        → unstuff (c == 10) (concat (stuff_chunk (some c) cs)) ≡ cs
        → unstuff start (
            (if c == b'.' && start then b'.' ∷ c ∷ [] else c ∷ [])
            ++ concat (stuff_chunk (some c) cs))
          ≡ c ∷ cs
    go start ih = ground (arith, ih)

stuff_file-nothing_left : (n : ℕ) → stuff_file n [] ≡ []
unfolding stuff_file
stuff_file-nothing_left zero = refl
stuff_file-nothing_left (suc n) = refl

stuffed_small : (file : Bytes) → length file ≤ buffer_size → stuffed file ≡ stuff_chunk none file
unfolding stuffed stuff_file
stuffed_small [] h = unfold stuff_chunk in refl
stuffed_small (c ∷ cs) h =
    let shorter : length cs ≤ 1023 = omega arith in
    let nonempty : (suc (length cs) == 0) ≡ false = ground arith in
    rw (nonempty, take-all 1023 cs shorter, drop-all 1023 cs shorter)
      (ap (λ l. stuff_chunk none (c ∷ cs) ++ l) (stuff_file-nothing_left (length cs))
        ∙ append-nil (stuff_chunk none (c ∷ cs)))

-- A message of at most one read of the file, whose lines all end with CR LF, is what the receiver
-- has when it takes the stuffed dots off again.
pub unstuff-stuffed :
    (file : Bytes)
    → IsCrlf none file
    → length file ≤ buffer_size
    → unstuff true (concat (stuffed file)) ≡ file
unstuff-stuffed file h l = rw (stuffed_small file l) (unstuff-stuff_chunk none file h)

-- Where a receiver is in a line: at its start, behind a dot there, or further on.
pub data LinePlace : Type 0 where
  at_start behind_dot within_line : LinePlace

abbrev pub next_place : LinePlace → ℕ → LinePlace
next_place at_start c = if c == 10 then at_start else if c == b'.' then behind_dot else within_line
next_place behind_dot c = if c == 10 then at_start else within_line
next_place within_line c = if c == 10 then at_start else within_line

-- A line that is a dot alone, which ends a multi-line reply, is somewhere in the bytes.
abbrev pub ends_reply : LinePlace → Bytes → Bool
ends_reply p [] = false
ends_reply behind_dot (c ∷ cs) = c == 13 || ends_reply (next_place behind_dot c) cs
ends_reply at_start (c ∷ cs) = ends_reply (next_place at_start c) cs
ends_reply within_line (c ∷ cs) = ends_reply (next_place within_line c) cs

abbrev place_of : Bool → LinePlace
place_of start = if start then at_start else within_line

ends_reply-stuff_chunk :
    (prev : Option ℕ) (cs : Bytes)
    → IsCrlf prev cs
    → ends_reply (place_of (starts_or_follows prev 10)) (concat (stuff_chunk prev cs)) ≡ false
unfolding stuff_chunk
ends_reply-stuff_chunk prev [] h = go (starts_or_follows prev 10)
  where
    go : (start : Bool) → ends_reply (place_of start) [] ≡ false
    go true = refl
    go false = refl
ends_reply-stuff_chunk prev (c ∷ cs) h =
    let ih = ends_reply-stuff_chunk (some c) cs h.1 in
    rw (concat-append, stuff_byte_lem prev c h.0) (go (starts_or_follows prev 10) ih)
  where
    go :
        (start : Bool)
        → ends_reply (place_of (c == 10)) (concat (stuff_chunk (some c) cs)) ≡ false
        → ends_reply (place_of start) (
            (if c == b'.' && start then b'.' ∷ c ∷ [] else c ∷ [])
            ++ concat (stuff_chunk (some c) cs))
          ≡ false
    go true ih = ground (arith, ih)
    go false ih = ground (arith, ih)

-- No line of such a message, as it is sent, is a dot alone: the reply does not end early.
pub ends_reply-stuffed :
    (file : Bytes)
    → IsCrlf none file
    → length file ≤ buffer_size
    → ends_reply at_start (concat (stuffed file)) ≡ false
ends_reply-stuffed file h l = rw (stuffed_small file l) (ends_reply-stuff_chunk none file h)

stuff_chunk-append :
    (prev : Option ℕ) (xs ys : Bytes) (p : ℕ)
    → stuff_chunk prev (xs ++ p ∷ ys) ≡ stuff_chunk prev (xs ++ p ∷ []) ++ stuff_chunk (some p) ys
unfolding stuff_chunk
stuff_chunk-append prev [] ys p = rw append-nil
stuff_chunk-append prev (x ∷ xs) ys p =
    ap (λ l. stuff_byte prev x ++ l) (stuff_chunk-append (some x) xs ys p)
    ∙ sym (append_assoc (stuff_byte prev x) _ _)

-- A line feed behind anything but a carriage return is sent before the carriage return that is
-- added for it: the line ends with LF CR on the wire.
pub stuff_chunk-bare_line_feed :
    (prev : Option ℕ) (xs ys : Bytes) (p : ℕ)
    → p ≢ 13
    → concat (stuff_chunk prev (xs ++ p ∷ 10 ∷ ys))
      ≡ concat (stuff_chunk prev (xs ++ p ∷ [])) ++ 10 ∷ 13 ∷ concat (stuff_chunk (some 10) ys)
stuff_chunk-bare_line_feed prev xs ys p h =
    rw (stuff_chunk-append prev xs (10 ∷ ys) p, concat-append)
      (ap (λ l. concat (stuff_chunk prev (xs ++ p ∷ [])) ++ l) tail)
  where
    tail : concat (stuff_chunk (some p) (10 ∷ ys)) ≡ 10 ∷ 13 ∷ concat (stuff_chunk (some 10) ys)
    tail = unfold stuff_chunk stuff_byte in ground arith
