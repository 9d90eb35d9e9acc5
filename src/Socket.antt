-- ===== src/Socket.antt =====
-- Sending through a socket: src/netutils.c (`sock_blocking_write`) and the sending half of
-- src/server_utils.c (`send_n_data`). What the kernel answers to `send` and what `errno` then holds
-- are arguments, indexed by the number of the call.
pub mod Write
pub mod Send
mod Tests
use pdc_pop3d.Prelude.{
  ℕ, zero, suc, ◌+◌, ◌-◌, ◌%◌, ◌^◌, ◌≤◌, ◌<◌, Bool, true, false, Option, none, some, List, [], ◌++◌,
  ltb, if◌then◌else◌, length, take, drop, set, ℤ, pos, negsuc, pos_part,
}
use pdc_pop3d.CString.{Bytes}
use pdc_pop3d.Buffer.{
  Buffer, buffer_reset, buffer_can_read, buffer_read_ptr, buffer_read_adv, buffer_write_ptr,
  buffer_write_adv, store,
}

-- What a socket's peer was sent, the number of `send` calls so far, and how often the descriptor
-- was closed.
pub record Wire : Type 0 where
  pub sent : Bytes
  pub calls : ℕ
  pub closes : ℕ

-- The kernel: what the `k`-th `send` of some bytes answers, and the `errno` behind it.
pub record Kernel : Type 0 where
  pub send : ℕ → Bytes → ℤ
  pub errno : ℕ → ℕ

-- `send` reports at most as many bytes as it was given.
abbrev pub IsHonest : Kernel → Type 0
IsHonest k = (i : ℕ) (bytes : Bytes) → pos_part (k.send i bytes) ≤ length bytes

-- `send` takes some of the bytes that it is given: a peer that goes on reading.
abbrev pub IsReading : Kernel → Type 0
IsReading k = (i : ℕ) (bytes : Bytes) → 0 < length bytes → 0 < pos_part (k.send i bytes)

abbrev pub is_positive : ℤ → Bool
is_positive a = ltb 0 (pos_part a)

-- `sock_blocking_write`: the result (0 or `errno`), the buffer and the wire afterwards. `none`
-- stands for a failed assertion, and for a loop that outlasts its fuel.
unfoldable pub write_loop : Kernel → ℕ → Buffer → Wire → Option (ℕ × Buffer × Wire)
write_loop k zero b w = none
write_loop k (suc fuel) b w = elim (buffer_read_ptr b) [
  | none ↦ none
  | some (ptr, n) ↦
      let bytes = take n (drop ptr b.cells) in
      let nwritten = k.send w.calls bytes in
      let w' : Wire = record w {
        sent = w.sent ++ take (pos_part nwritten) bytes;
        calls = w.calls + 1;
      } in
      elim (is_positive nwritten) [
        | true ↦ elim (buffer_read_adv b nwritten) [
          | none ↦ none
          | some b' ↦ elim (buffer_can_read b') [
            | true ↦ write_loop k fuel b' w'
            | false ↦ some (0, b', w')
          ]
        ]
        | false ↦ some (k.errno w.calls, b, w')
      ]
]

-- Each round of the loop sends a byte at least, so that one round more than there are bytes is
-- enough.
unfoldable pub sock_blocking_write : Kernel → Buffer → Wire → Option (ℕ × Buffer × Wire)
unfolding write_loop
sock_blocking_write k b w = write_loop k (b.write - b.read + 1) b w

abbrev pub max_bytes : ℕ
max_bytes = 32768

-- `send_n_data`, on the write buffer, the wire and the count of bytes of the statistics. The data
-- are dropped when they do not fit.
unfoldable pub send_n_data : Kernel → Bytes → Buffer → Wire → ℕ → Option (Buffer × Wire × ℕ)
send_n_data k data' b w transfered =
    if ltb max_bytes (length data') then some (b, w, transfered) else elim (buffer_write_ptr b) [
      | none ↦ none
      | some (ptr, available) ↦
          if ltb available (length data')
          then some (b, w, transfered)
          else let copied = store b.cells ptr data' in
            let terminated = set copied (ptr + length data') 0 in
            elim (buffer_write_adv (record b { cells = terminated }) (pos (length data'))) [
              | none ↦ none
              | some b' ↦ elim (sock_blocking_write k b' w) [
                | none ↦ none
                | some (_, b'', w') ↦
                    some (buffer_reset b'', w', (transfered + length data') % 2 ^ 64)
              ]
            ]
    ]
