-- ===== src/Socket/Send.antt =====
-- What `send_n_data` of src/server_utils.c puts on the wire.
use pdc_pop3d.Prelude.{
  ℕ, ◌+◌, ◌-◌, ◌%◌, ◌^◌, ◌≤◌, ◌≡◌, refl, sym, ap, ◌∙◌, [], ◌∷◌, ◌++◌, ◌⊎◌, inl, inr, some, arith,
  le→leb, le→ltb, length, set, take, drop, length-set, take-set_ge, drop-set, append-nil, pos,
  pos_part,
}
use pdc_pop3d.CString.{Bytes}
use pdc_pop3d.Buffer.{Buffer, buffer_reset, buffer_write_ptr, buffer_write_adv, store}
use pdc_pop3d.Buffer.Contents.{IsValid, contents}
use pdc_pop3d.Buffer.Queue.{buffer_write_adv_refines}
use pdc_pop3d.Socket.{Wire, Kernel, IsHonest, IsReading, max_bytes, send_n_data}
use pdc_pop3d.Socket.Write.{Written, sock_blocking_write-Written}

-- A buffer between two messages: both pointers at the start, room for `MAX_BYTES`.
pub record IsFresh (b : Buffer) : Type 0 where
  pub valid : IsValid b
  pub read_zero : b.read ≡ 0
  pub write_zero : b.write ≡ 0
  pub limit_is : b.limit ≡ max_bytes

-- A front part of the data is on the wire: all of it, unless some `send` took nothing of the rest.
pub record Sent (k : Kernel) (bytes : Bytes) (w : Wire) (b' : Buffer) (w' : Wire) : Type 0 where
  pub fresh : IsFresh b'
  pub sent_part : Bytes
  pub unsent : Bytes
  pub splits : bytes ≡ sent_part ++ unsent
  pub on_wire : w'.sent ≡ w.sent ++ sent_part
  pub same_closes : w'.closes ≡ w.closes
  pub outcome : (unsent ≡ []) ⊎ (call : ℕ) × (pos_part (k.send call unsent) ≡ 0)

-- The buffer with the data and the NUL behind them.
abbrev terminated : Buffer → Bytes → Buffer
terminated b bytes = record b {
  cells = set (store b.cells b.write bytes) (b.write + length bytes) 0;
  write = b.write + length bytes;
}

terminated_lem :
    {b : Buffer} (bytes : Bytes)
    → IsFresh b
    → length bytes ≤ max_bytes
    → IsValid (terminated b bytes) × (contents (terminated b bytes) ≡ bytes)
terminated_lem {b} bytes f h =
    let (_, v, c) = buffer_write_adv_refines bytes f.valid (omega arith) in
    let cells = store b.cells b.write bytes in
    let m = b.write + length bytes in
    let n = m - b.read in
    let e : m ≡ b.read + n = omega arith in
    let empty : b.write - b.read ≡ 0 = omega arith in
    let same : take n (drop b.read (set cells (b.read + n) 0)) ≡ take n (drop b.read cells) =
      rw drop-set (take-set_ge n n (drop b.read cells) 0 (omega arith)) in
    (
      omega (arith, v, length-set cells m 0),
      ap (λ i. take n (drop b.read (set cells i 0))) e
          ∙ same
          ∙ c
          ∙ ap (λ i. take i (drop b.read b.cells) ++ bytes) empty,
    )

write_adv-terminated :
    {b : Buffer} (bytes : Bytes)
    → IsFresh b
    → length bytes ≤ max_bytes
    → buffer_write_adv
        (record b { cells = set (store b.cells b.write bytes) (b.write + length bytes) 0 })
        (pos (length bytes))
      ≡ some (terminated b bytes)
unfolding buffer_write_adv
write_adv-terminated {b} bytes f h = rw (le→leb (b.write + length bytes) b.limit (omega arith))

write_ptr-fresh : {b : Buffer} → IsFresh b → buffer_write_ptr b ≡ some (b.write, b.limit - b.write)
unfolding buffer_write_ptr
write_ptr-fresh {b} f = rw (le→leb b.write b.limit (omega arith))

reset-IsFresh : {b : Buffer} → IsValid b → b.limit ≡ max_bytes → IsFresh (buffer_reset b)
unfolding buffer_reset
reset-IsFresh v e = record {
  valid = omega arith;
  read_zero = refl;
  write_zero = refl;
  limit_is = e;
}

Sent-of_Written :
    (k : Kernel) (bytes : Bytes) (b b' : Buffer) (w w' : Wire) (ret : ℕ)
    → contents b ≡ bytes
    → b.limit ≡ max_bytes
    → Written k b w ret b' w'
    → Sent k bytes w (buffer_reset b') w'
Sent-of_Written k bytes b b' w w' ret c l r = record {
  fresh = reset-IsFresh r.valid (r.same_limit ∙ l);
  sent_part = r.sent_part;
  unsent = contents b';
  splits = sym c ∙ r.splits;
  on_wire = r.on_wire;
  same_closes = r.same_closes;
  outcome = elim r.outcome [
    | inl (_, empty) ↦ inl empty
    | inr refused ↦ inr (refused.call, refused.none_taken)
  ];
}

-- A peer that goes on reading is sent everything.
pub Sent-all :
    (k : Kernel) (bytes : Bytes) (w : Wire) (b' : Buffer) (w' : Wire)
    → IsReading k
    → Sent k bytes w b' w'
    → w'.sent ≡ w.sent ++ bytes
Sent-all k bytes w b' w' reading s =
    s.on_wire
    ∙ ap (λ part. w.sent ++ part)
        (sym (append-nil s.sent_part)
          ∙ ap (λ r. s.sent_part ++ r) (sym nothing_left)
          ∙ sym s.splits)
  where
    none_refused : (call : ℕ) (rest : Bytes) → pos_part (k.send call rest) ≡ 0 → rest ≡ []
    none_refused call [] z = refl
    none_refused call (c ∷ cs) z = absurd (omega (arith, reading call (c ∷ cs) (omega arith)))

    nothing_left : s.unsent ≡ []
    nothing_left = elim s.outcome [ inl e ↦ e | inr (call, z) ↦ none_refused call s.unsent z ]

-- `send_n_data` of at most `MAX_BYTES` bytes always ends, with no failed assertion, and leaves the
-- write buffer empty, both pointers at the start, if it was so before. A front part of the bytes is
-- on the wire, in order: all of them, unless some `send` took nothing of those that were left; the
-- statistics count all of them in either case. The descriptor is not closed. The kernel is taken not to report more bytes than it
-- was given.
pub send_n_data-Sent :
    (k : Kernel) (bytes : Bytes) (b : Buffer) (w : Wire) (n : ℕ)
    → IsHonest k
    → IsFresh b
    → length bytes ≤ max_bytes
    → (b' : Buffer) × (w' : Wire) × (send_n_data k bytes b w n
        ≡ some (b', w', (n + length bytes) % 2 ^ 64))
      × Sent k bytes w b' w'
unfolding send_n_data
send_n_data-Sent k bytes b w n hk f h =
    let (v, c) = terminated_lem bytes f h in
    let (ret, b', w', run, r) = sock_blocking_write-Written k (terminated b bytes) w hk v in
    (
      buffer_reset b',
      w',
      rw (
        le→ltb max_bytes (length bytes) h,
        write_ptr-fresh f,
        le→ltb (b.limit - b.write) (length bytes) (omega arith),
        write_adv-terminated bytes f h,
        run,
      ),
      Sent-of_Written k bytes (terminated b bytes) b' w w' ret c f.limit_is r,
    )
