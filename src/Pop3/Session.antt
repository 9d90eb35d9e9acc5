-- ===== src/Pop3/Session.antt =====
-- `pop3_handle_connection` of src/server_utils.c: the bytes of a client's session are gathered in the
-- read buffer, cut into lines at CR LF, and given to `parse_input` one by one.
pub mod Search
pub mod Framing
pub mod Turns
use pdc_pop3d.Prelude.{
  ℕ, zero, suc, ◌+◌, ◌-◌, ◌%◌, ◌^◌, Bool, true, false, ◌&&◌, Option, none, some, List, [], ◌∷◌,
  ◌++◌, ltb, ◌==◌, if◌then◌else◌, length, set, take, drop, pos,
}
use pdc_pop3d.CString.{Bytes, codes, crlf}
use pdc_pop3d.Text.{deref}
use pdc_pop3d.Buffer.{Buffer, buffer_reset, buffer_write_ptr, buffer_write_adv, store}
use pdc_pop3d.Global.{GlobalStatistics}
use pdc_pop3d.Pop3.State.{
  State, Env, M, ◌>>=◌, ◌>>◌, pure, get, modify_conn, modify_shared, send_data,
}
use pdc_pop3d.Pop3.Login.{post_users}
use pdc_pop3d.Pop3.Quit.{close_fd}
use pdc_pop3d.Pop3.Commands.{parse_input}

abbrev pub ok_pop3_server_ready : Bytes
ok_pop3_server_ready = codes "+OK POP3 server ready (^-^)" ++ crlf

abbrev pub err_command_exceeds : Bytes
err_command_exceeds = codes "-ERR Command exceds buffer size" ++ crlf

abbrev pub max_command_length : ℕ
max_command_length = 255

-- What `recv` answers: the bytes that it stored, none of them when the peer has closed, or -1.
pub data RecvResult : Type 0 where
  got : Bytes → RecvResult
  recv_failed : RecvResult

-- `strstr(s, "\r\n")`, as an offset.
unfoldable pub strstr_crlf : Bytes → Option ℕ
strstr_crlf [] = none
strstr_crlf (c ∷ s) =
    let rest = strstr_crlf s in
    if c == 0
    then none
    else if c == 13 && deref s == 10
    then some 0
    else elim rest [ none ↦ none | some k ↦ some (suc k) ]

-- How the inner loop goes on: with the pointer to what is not yet a command and
-- `total_bytes_read`, or not, because the peer has closed or because of an error.
pub data Turn : Type 0 where
  goes_on : ℕ → ℕ → Turn
  closed broken : Turn

-- How the loop stands when no more answers of `recv` are there.
pub data End : Type 0 where
  waiting ended : End

module _ {D : Type 0} (env : Env D) where
  abbrev pub modify_read : (Buffer → Buffer) → M D (Unit {0})
  modify_read f = modify_conn (λ c. record c { info_read_buff = f c.info_read_buff })

  -- `buffer_write_ptr` on the read buffer.
  unfoldable pub write_ptr : M D (ℕ × ℕ)
  write_ptr s = elim (buffer_write_ptr s.conn.info_read_buff) [ none ↦ none | some x ↦ some (x, s) ]

  -- `buffer_write_adv` on the read buffer.
  unfoldable pub write_adv : ℕ → M D (Unit {0})
  write_adv n s = elim (buffer_write_adv s.conn.info_read_buff (pos n)) [
    | none ↦ none
    | some b ↦ some (tt, record s { conn = record s.conn { info_read_buff = b } })
  ]

  -- The loop over the complete commands from `base` on; it returns the pointer behind them. Each
  -- command takes two bytes of the storage at least.
  unfoldable pub drain : ℕ → ℕ → M D ℕ
  drain zero base = pure base
  drain (suc fuel) base = do
    s ← get
    elim (strstr_crlf (drop base s.conn.info_read_buff.cells)) [
      | none ↦ pure base
      | some k ↦ (do
        modify_read (λ b. record b { cells = set b.cells (base + k) 0 })
        parse_input env (drop base (set s.conn.info_read_buff.cells (base + k) 0))
        _ ← write_ptr
        drain fuel (base + k + 2))
    ]

  -- A turn of the inner loop in which some bytes were stored at `ptr`.
  unfoldable pub take_bytes : ℕ → ℕ → ℕ → ℕ → M D Turn
  take_bytes base total ptr n = do
    modify_read (λ b. record b { cells = set b.cells (ptr + n) 0 })
    write_adv n
    _ ← write_ptr
    s ← get
    base' ← drain (length s.conn.info_read_buff.cells) base
    pure (goes_on base' (total + n))

  -- One turn of the inner loop. The source asks for the write pointer at the end of a turn; nothing
  -- moves it before the next. `recv` stores as many bytes as there is room for, at most.
  unfoldable pub receive : ℕ → ℕ → RecvResult → M D Turn
  receive base total recv_failed = pure broken
  receive base total (got d) = do
    p ← write_ptr
    let bytes = take p.1 d
    modify_read (λ b. record b { cells = store b.cells p.0 bytes })
    if ltb max_command_length (total + length bytes)
        then (do send_data env err_command_exceeds; pure broken)
        else if length bytes == 0
        then pure closed
        else take_bytes base total p.0 (length bytes)

  -- The inner loop.
  unfoldable pub session : ℕ → ℕ → List RecvResult → M D End
  session base total [] = pure waiting
  session base total (e ∷ es) = do
    t ← receive base total e
    elim t [
      | goes_on base' total' ↦ session base' total' es
      | closed ↦ pure ended
      | broken ↦ pure ended
    ]

  abbrev pub set_concurrent : (ℕ → ℕ) → M D (Unit {0})
  set_concurrent f = modify_shared (λ h. record h {
    stats = record h.stats { concurrent_clients = f h.stats.concurrent_clients };
  })

  -- Behind the loops.
  unfoldable pub close_connection : M D (Unit {0})
  close_connection = do
    s ← get
    modify_shared
        (λ h. record h { conf = record h.conf { users = post_users s.conn.username h.conf.users } })
    _ ← close_fd env
    set_concurrent (λ n. (n + (2 ^ 64 - 1)) % 2 ^ 64)

  -- The session up to the last answer of `recv` that is given. The inner loop ends only at an error
  -- or when the peer has closed, and then the outer one ends too.
  unfoldable pub pop3_handle_connection : List RecvResult → M D End
  pop3_handle_connection es = do
    set_concurrent (λ n. (n + 1) % 2 ^ 64)
    send_data env ok_pop3_server_ready
    p ← write_ptr
    end ← session p.0 0 es
    elim end [
      | waiting ↦ pure waiting
      | ended ↦ (do modify_read buffer_reset; close_connection; pure ended)
    ]
