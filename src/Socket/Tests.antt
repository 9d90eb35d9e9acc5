-- ===== src/Socket/Tests.antt =====
-- A kernel that takes two bytes of every `send`.
use pdc_pop3d.Prelude.{
  ℕ, ◌+◌, ◌%◌, ◌^◌, ◌≡◌, refl, [], some, arith, length, length-replicate, min, pos, replicate,
}
use pdc_pop3d.CString.{codes}
use pdc_pop3d.Buffer.{Buffer}
use pdc_pop3d.Buffer.Contents.{IsValid}
use pdc_pop3d.Socket.{Wire, Kernel, IsHonest, max_bytes, sock_blocking_write, send_n_data}
use pdc_pop3d.Socket.Write.{Written, sock_blocking_write-Written}
use pdc_pop3d.Socket.Send.{IsFresh, Sent, send_n_data-Sent}

abbrev slow : Kernel
slow = record { send = λ _ bytes. pos (min 2 (length bytes)); errno = λ _. 11 }

slow-IsHonest : IsHonest slow
slow-IsHonest i bytes = omega arith

abbrev wire : Wire
wire = record { sent = []; calls = 0; closes = 0 }

abbrev three_bytes : Buffer
three_bytes = record { cells = codes "abc"; limit = 3; read = 0; write = 3 }

three_bytes-IsValid : IsValid three_bytes
three_bytes-IsValid = omega arith

sock_blocking_write_example :
    (ret : ℕ) × (b' : Buffer) × (w' : Wire) × (sock_blocking_write slow three_bytes wire
      ≡ some (ret, b', w'))
    × Written slow three_bytes wire ret b' w'
sock_blocking_write_example =
    sock_blocking_write-Written slow three_bytes wire slow-IsHonest three_bytes-IsValid

abbrev fresh : Buffer
fresh = record { cells = replicate max_bytes 0; limit = max_bytes; read = 0; write = 0 }

fresh-IsFresh : IsFresh fresh
fresh-IsFresh = record {
  valid = record {
    read_le = omega arith;
    write_le = omega arith;
    storage = omega (arith, length-replicate {A = ℕ} max_bytes 0);
  };
  read_zero = refl;
  write_zero = refl;
  limit_is = refl;
}

send_n_data_example :
    (b' : Buffer) × (w' : Wire) × (send_n_data slow (codes "abc") fresh wire 7
      ≡ some (b', w', (7 + length (codes "abc")) % 2 ^ 64))
    × Sent slow (codes "abc") wire b' w'
send_n_data_example =
    send_n_data-Sent slow (codes "abc") fresh wire 7 slow-IsHonest fresh-IsFresh (omega arith)
