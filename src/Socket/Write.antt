-- ===== src/Socket/Write.antt =====
-- What `sock_blocking_write` of src/netutils.c puts on the wire.
use pdc_pop3d.Prelude.{
  ℕ, zero, suc, ◌+◌, ◌-◌, ◌<◌, ◌≡◌, refl, sym, ap, ◌∙◌, true, false, [], ◌++◌, ◌⊎◌, inl, inr,
  Option, some, arith, ltb, Bool-cases, le→leb, length, take, drop, length-drop, take-append-drop,
  append_assoc, ltb→lt, ℤ, pos, negsuc, pos_part,
}
use pdc_pop3d.CString.{Bytes}
use pdc_pop3d.Buffer.{Buffer, buffer_can_read, buffer_read_ptr, buffer_read_adv}
use pdc_pop3d.Buffer.Contents.{IsValid, contents, length-contents, buffer_read_adv_refines}
use pdc_pop3d.Socket.{Wire, Kernel, IsHonest, is_positive, write_loop, sock_blocking_write}

-- Some `send` of these bytes took none of them, and `errno` is what the caller got.
pub record Refused (k : Kernel) (rest : Bytes) (ret : ℕ) : Type 0 where
  pub call : ℕ
  pub none_taken : pos_part (k.send call rest) ≡ 0
  pub ret_is : ret ≡ k.errno call

-- What the loop has done when it stops: a front part of the bytes is on the wire, in order, and the
-- rest is still in the buffer. It stops with 0 when nothing is left, and with `errno` when a `send`
-- of the rest took none of it. The descriptor is not closed.
pub record Written (k : Kernel) (b : Buffer) (w : Wire) (ret : ℕ) (b' : Buffer) (w' : Wire)
    : Type 0 where
  pub sent_part : Bytes
  pub valid : IsValid b'
  pub splits : contents b ≡ sent_part ++ contents b'
  pub on_wire : w'.sent ≡ w.sent ++ sent_part
  pub same_closes : w'.closes ≡ w.closes
  pub same_limit : b'.limit ≡ b.limit
  pub outcome : ((ret ≡ 0) × (contents b' ≡ [])) ⊎ Refused k (contents b') ret

buffer_read_ptr_lem : {b : Buffer} → IsValid b → buffer_read_ptr b ≡ some (b.read, b.write - b.read)
unfolding buffer_read_ptr
buffer_read_ptr_lem {b} v = rw (le→leb b.read b.write (omega arith))

can_read_empty : {b : Buffer} → IsValid b → buffer_can_read b ≡ false → contents b ≡ []
unfolding buffer_can_read
can_read_empty {b} v h = let e : b.write - b.read ≡ 0 = ground arith in rw e

pos_of_positive : (a : ℤ) → ltb 0 (pos_part a) ≡ true → a ≡ pos (pos_part a)
pos_of_positive (pos n) h = refl
pos_of_positive (negsuc n) h = cc

module _ (k : Kernel) (fuel : ℕ) (b : Buffer) (w : Wire) (v : IsValid b) where
  abbrev answered : ℤ
  answered = k.send w.calls (contents b)

  abbrev next_wire : Wire
  next_wire = record w {
    sent = w.sent ++ take (pos_part answered) (contents b);
    calls = w.calls + 1;
  }

  loop-refused :
      is_positive answered ≡ false
      → write_loop k (suc fuel) b w ≡ some (k.errno w.calls, b, next_wire)
  unfolding write_loop
  loop-refused e = rw (write_loop, buffer_read_ptr_lem v, e)

  loop-done :
      (b' : Buffer)
      → is_positive answered ≡ true
      → buffer_read_adv b answered ≡ some b'
      → buffer_can_read b' ≡ false
      → write_loop k (suc fuel) b w ≡ some (0, b', next_wire)
  unfolding write_loop
  loop-done b' e a c = rw (write_loop, buffer_read_ptr_lem v, e, a, c)

  loop-more :
      (b' : Buffer)
      → is_positive answered ≡ true
      → buffer_read_adv b answered ≡ some b'
      → buffer_can_read b' ≡ true
      → write_loop k (suc fuel) b w ≡ write_loop k fuel b' next_wire
  unfolding write_loop
  loop-more b' e a c = rw (write_loop, buffer_read_ptr_lem v, e, a, c)

not_positive : (a : ℤ) → is_positive a ≡ false → pos_part a ≡ 0
not_positive a h = ground arith

-- One round, behind which the loop goes on from `b'` or stops there.
Written-round :
    (k : Kernel) (b b' b'' : Buffer) (w w' w'' : Wire) (n ret : ℕ)
    → contents b' ≡ drop n (contents b)
    → w'.sent ≡ w.sent ++ take n (contents b)
    → w'.closes ≡ w.closes
    → b'.limit ≡ b.limit
    → Written k b' w' ret b'' w''
    → Written k b w ret b'' w''
Written-round k b b' b'' w w' w'' n ret c s z l r = record {
  sent_part = take n (contents b) ++ r.sent_part;
  valid = r.valid;
  splits =
      sym (take-append-drop n (contents b))
      ∙ ap (λ x. take n (contents b) ++ x) (sym c ∙ r.splits)
      ∙ sym (append_assoc (take n (contents b)) r.sent_part (contents b''));
  on_wire = r.on_wire ∙ ap (λ x. x ++ r.sent_part) s ∙ append_assoc w.sent _ r.sent_part;
  same_closes = r.same_closes ∙ z;
  same_limit = r.same_limit ∙ l;
  outcome = r.outcome;
}

-- A round that leaves nothing to be read.
Written-last :
    (k : Kernel) (b b' : Buffer) (w w' : Wire) (n : ℕ)
    → IsValid b'
    → contents b' ≡ drop n (contents b)
    → w'.sent ≡ w.sent ++ take n (contents b)
    → w'.closes ≡ w.closes
    → b'.limit ≡ b.limit
    → contents b' ≡ []
    → Written k b w 0 b' w'
Written-last k b b' w w' n v c s q l z = record {
  sent_part = take n (contents b);
  valid = v;
  splits = rw c (sym (take-append-drop n (contents b)));
  on_wire = s;
  same_closes = q;
  same_limit = l;
  outcome = inl (refl, z);
}

-- A `send` that sends nothing.
Written-refused :
    (k : Kernel) (b : Buffer) (w w' : Wire)
    → IsValid b
    → w'.sent ≡ w.sent ++ take (pos_part (k.send w.calls (contents b))) (contents b)
    → w'.closes ≡ w.closes
    → is_positive (k.send w.calls (contents b)) ≡ false
    → Written k b w (k.errno w.calls) b w'
Written-refused k b w w' v s q e =
    let none_sent = not_positive (k.send w.calls (contents b)) e in
    record {
      sent_part = [];
      valid = v;
      splits = refl;
      on_wire = rw none_sent at s;
      same_closes = q;
      same_limit = refl;
      outcome = inr (record { call = w.calls; none_taken = none_sent; ret_is = refl });
    }

Outcome : Kernel → Buffer → Wire → Option (ℕ × Buffer × Wire) → Type 0
Outcome k b w r =
    (ret : ℕ) × (b' : Buffer) × (w' : Wire) × (r ≡ some (ret, b', w')) × Written k b w ret b' w'

write_loop-Written :
    (k : Kernel) (fuel : ℕ) (b : Buffer) (w : Wire)
    → IsHonest k
    → IsValid b
    → length (contents b) < fuel
    → Outcome k b w (write_loop k fuel b w)
unfolding Outcome
write_loop-Written k zero b w hk v h = absurd (omega arith)
write_loop-Written k (suc fuel) b w hk v h =
    let a = k.send w.calls (contents b) in
    let n = pos_part a in
    let next = next_wire k fuel b w v in
    elim (Bool-cases (is_positive a)) [
      | inr e ↦ (
        k.errno w.calls,
        b,
        next,
        loop-refused k fuel b w v e,
        Written-refused k b w next v refl refl e,
      )
      | inl e ↦
          let (b', adv, v', c, l, _) = buffer_read_adv_refines n v (hk w.calls (contents b)) in
          let adv' : buffer_read_adv b a ≡ some b' =
            ap (buffer_read_adv b) (pos_of_positive a e) ∙ adv in
          elim (Bool-cases (buffer_can_read b')) [
            | inl m ↦
                let fewer : length (contents b') < fuel =
                  omega (arith, ap length c, length-drop n (contents b), ltb→lt 0 n e) in
                let (ret, b'', w'', run, r) = write_loop-Written k fuel b' next hk v' fewer in
                (
                  ret,
                  b'',
                  w'',
                  loop-more k fuel b w v b' e adv' m ∙ run,
                  Written-round k b b' b'' w next w'' n ret c refl refl l r,
                )
            | inr m ↦ (
              0,
              b',
              next,
              loop-done k fuel b w v b' e adv' m,
              Written-last k b b' w next n v' c refl refl l (can_read_empty v' m),
            )
          ]
    ]

-- `sock_blocking_write` always ends, with no failed assertion: a front part of the buffer's bytes
-- is then on the wire, in order and each once, and the rest is still in the buffer. Either it
-- returns 0 and no byte is left, or it returns the `errno` behind a `send` that took none of the
-- bytes that are left. The kernel is taken not to report more bytes than it was given, and the
-- buffer to be well formed. The descriptor is not closed.
pub sock_blocking_write-Written :
    (k : Kernel) (b : Buffer) (w : Wire)
    → IsHonest k
    → IsValid b
    → (ret : ℕ) × (b' : Buffer) × (w' : Wire) × (sock_blocking_write k b w ≡ some (ret, b', w'))
      × Written k b w ret b' w'
unfolding sock_blocking_write Outcome
sock_blocking_write-Written k b w hk v =
    write_loop-Written k (b.write - b.read + 1) b w hk v (omega (arith, length-contents v))
