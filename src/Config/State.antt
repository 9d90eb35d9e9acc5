-- ===== src/Config/State.antt =====
-- The state of the configuration service, and `send_data_udp` of src/server_utils.c.
pub mod Send
pub mod Runs
use pdc_pop3d.Prelude.{
  ℕ, ◌+◌, ◌-◌, Bool, true, false, Option, none, some, List, [], ◌∷◌, ◌++◌, ltb, ◌==◌, if◌then◌else◌,
  length, set, take, drop, ℤ, pos, negsuc,
}
use pdc_pop3d.CString.{Bytes, cstr}
use pdc_pop3d.Step.{Step, ◌>>=◌, pure}
use pdc_pop3d.Buffer.{Buffer, buffer_reset, buffer_write_ptr, buffer_write_adv, store}
use pdc_pop3d.Global.{GlobalConfiguration, GlobalStatistics}

-- `struct ConfigServer`: the storage of a buffer stands in its `cells`.
pub record ConfigServer : Type 0 where
  pub info_read_buff : Buffer
  pub info_write_buff : Buffer

-- The globals that the service works on, the datagrams that were sent, the number of `sendto` calls,
-- the number of parsers that are allocated, and of those that were asked for.
pub record ConfigState : Type 0 where
  pub conf : GlobalConfiguration
  pub stats : GlobalStatistics
  pub server : ConfigServer
  pub datagrams : List Bytes
  pub sends : ℕ
  pub parsers : ℕ
  pub parser_inits : ℕ

-- The operating system: what the `k`-th `sendto` of some bytes answers, and whether the two `calloc`
-- of the `k`-th `parser_init` give memory.
pub record Udp : Type 0 where
  pub sendto : ℕ → Bytes → ℤ
  pub calloc : ℕ → Bool × Bool

abbrev pub C : Type 0 → Type 0
C = Step ConfigState

abbrev pub max_command_length : ℕ
max_command_length = 255

-- `== -1`
abbrev pub is_minus_one : ℤ → Bool
is_minus_one (pos n) = false
is_minus_one (negsuc n) = n == 0

-- The write buffer with the data and the NUL behind them, before the pointer is moved.
abbrev pub written : Buffer → ℕ → Bytes → Buffer
written b ptr bytes = record b { cells = set (store b.cells ptr bytes) (ptr + length bytes) 0 }

-- What follows the tests of `send_data_udp`: the data go out from the buffer `b`, at `ptr`.
unfoldable pub send_from : Udp → ℕ → ℕ → Buffer → C ℤ
send_from udp ptr n b s =
    let bytes = take n (drop ptr b.cells) in
    let sent_bytes = udp.sendto s.sends bytes in
    if is_minus_one sent_bytes
    then some (
      negsuc 0,
      record s { server = record s.server { info_write_buff = b }; sends = s.sends + 1 },
    )
    else some (
      sent_bytes,
      record s {
        server = record s.server { info_write_buff = buffer_reset b };
        sends = s.sends + 1;
        datagrams = s.datagrams ++ bytes ∷ [];
      },
    )

-- `send_data_udp`. The buffer is not reset when `sendto` fails.
unfoldable pub send_data_udp : Udp → Bytes → C ℤ
unfolding send_from
send_data_udp udp text s =
    let data' = cstr text in
    let b = s.server.info_write_buff in
    if ltb max_command_length (length data')
    then some (negsuc 0, s)
    else elim (buffer_write_ptr b) [
      | none ↦ none
      | some (ptr, available) ↦
          if ltb available (length data')
          then some (negsuc 0, s)
          else elim (buffer_write_adv (written b ptr data') (pos (length data'))) [
            | none ↦ none
            | some b' ↦ send_from udp ptr (length data') b' s
          ]
    ]

-- A call whose result is not used.
abbrev pub say : Udp → Bytes → C (Unit {0})
say udp text = send_data_udp udp text >>= λ _. pure tt
