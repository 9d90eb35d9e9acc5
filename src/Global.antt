-- ===== src/Global.antt =====
-- The state that the threads share: src/global_config.h and src/global_config.c. A string field is
-- the list of its bytes. `users` holds the `numUsers` first entries of the source's array.
use pdc_pop3d.Prelude.{ℕ, Bool, List}
use pdc_pop3d.CString.{Bytes}

-- `struct Users`, with the value of the semaphore.
pub record User : Type 0 where
  pub name : Bytes
  pub pass : Bytes
  pub semaphore : ℕ

-- `struct GlobalConfiguration`, without the log file.
pub record GlobalConfiguration : Type 0 where
  pub pop3_addr : Bytes
  pub pop3_port : ℕ
  pub conf_addr : Bytes
  pub conf_port : ℕ
  pub users : List User
  pub buffers_size : ℕ
  pub logs_folder : Bytes
  pub mailroot_folder : Bytes
  pub maildir_folder : Bytes
  pub authorization_token : Bytes
  pub transformation : Bool
  pub transformation_script : Bytes

-- `struct GlobalStatistics`
pub record GlobalStatistics : Type 0 where
  pub concurrent_clients : ℕ
  pub total_clients : ℕ
  pub bytes_transfered : ℕ
