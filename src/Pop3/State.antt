-- ===== src/Pop3/State.antt =====
-- The state of one client's thread: src/server_utils.h, with what the thread shares with others
-- and the operating system around it. A step returns `none` when an assertion of the code fails, or
-- when it would mark a mail outside of the array.
pub mod Send
pub mod Kept
use pdc_pop3d.Prelude.{ℕ, ◌+◌, Bool, Option, none, some, List, ℤ}
pub use pdc_pop3d.Step.{◌>>=◌, ◌>>◌, pure, get}
use pdc_pop3d.Step.{Step}
use pdc_pop3d.CString.{Bytes, cstr}
use pdc_pop3d.Buffer.{Buffer}
use pdc_pop3d.Socket.{Wire, Kernel, send_n_data}
use pdc_pop3d.Global.{GlobalConfiguration, GlobalStatistics}

-- `enum ConnectionStatus`
pub data ConnectionStatus : Type 0 where
  authorization transaction update : ConnectionStatus

-- `enum MailStatus`
pub data MailStatus : Type 0 where
  unchanged deleted retrieved : MailStatus

-- `struct Mail`
pub record Mail : Type 0 where
  pub index : ℕ
  pub octets : ℕ
  pub filename : Bytes
  pub folder : Bytes
  pub status : MailStatus

-- `struct Connection`. `mails` are the `MAX_EMAILS` cells of the array.
pub record Connection : Type 0 where
  pub fd : ℕ
  pub mails : List Mail
  pub num_emails : ℕ
  pub username : Bytes
  pub status : ConnectionStatus
  pub info_read_buff : Buffer
  pub info_write_buff : Buffer

-- What all threads see: the configuration, the statistics, the counter of `get_next_index`, the
-- number of parsers that are allocated, and the disk.
pub record Shared (D : Type 0) : Type 0 where
  pub conf : GlobalConfiguration
  pub stats : GlobalStatistics
  pub next_index : ℕ
  pub parsers : ℕ
  pub disk : D

pub record State (D : Type 0) : Type 0 where
  pub conn : Connection
  pub shared : Shared D
  pub wire : Wire

-- `struct dirent`, as far as the code reads it.
pub record DirEntry : Type 0 where
  pub d_name : Bytes
  pub is_regular : Bool

-- The operating system: sockets, files on a disk of some type `D`, semaphores and memory.
pub record Env (D : Type 0) : Type 0 where
  pub kernel : Kernel
  -- `close` on the connection, by the number of closes before.
  pub close : ℕ → Bool
  -- `access(path, F_OK) == 0`
  pub access : D → Bytes → Bool
  pub remove : D → Bytes → Bool × D
  pub rename : D → Bytes → Bytes → Bool × D
  pub mkdir : D → Bytes → Bool × D
  -- `opendir` and `readdir`, in the order in which they give the entries.
  pub list_dir : D → Bytes → Option (List DirEntry)
  -- `fopen`, `fseek` and `ftell`.
  pub file_size : D → Bytes → Option ℕ
  -- `fopen` and `fread`, up to the end.
  pub read_file : D → Bytes → Option Bytes
  -- What `sh -c script` writes to its output when it is given the input, if it can be started.
  pub shell : Bytes → Bytes → Option Bytes
  -- What the other threads have made of the shared state when `sem_wait` on a user returns.
  pub wake : ℕ → Shared D → Shared D
  -- Whether the two `calloc` of `parser_init` give memory, by the number of parsers.
  pub calloc : ℕ → Bool × Bool

abbrev pub M : Type 0 → Type 0 → Type 0
M D = Step (State D)

module _ {D : Type 0} where
  abbrev pub modify_conn : (Connection → Connection) → M D (Unit {0})
  modify_conn f s = some (tt, record s { conn = f s.conn })

  abbrev pub modify_shared : (Shared D → Shared D) → M D (Unit {0})
  modify_shared f s = some (tt, record s { shared = f s.shared })

  -- `send_n_data` on the connection's write buffer.
  unfoldable pub send_n : Env D → Bytes → M D (Unit {0})
  send_n env bytes s =
      elim (send_n_data env.kernel bytes s.conn.info_write_buff s.wire
        s.shared.stats.bytes_transfered) [
          | none ↦ none
          | some (b, w, n) ↦ some (
            tt,
            record s {
              conn = record s.conn { info_write_buff = b };
              shared = record s.shared { stats = record s.shared.stats { bytes_transfered = n } };
              wire = w;
            },
          )
        ]

  -- `send_data`
  unfoldable pub send_data : Env D → Bytes → M D (Unit {0})
  unfolding send_n
  send_data env text = send_n env (cstr text)
