-- ===== src/Pop3/Login.antt =====
-- USER and PASS: `user_action` and `pass_action` of src/parser/pop3_parserADT.c.
pub mod Safety
pub mod Kept
pub mod Outcome
use pdc_pop3d.Prelude.{
  ℕ, ◌+◌, ◌-◌, some, List, [], ◌∷◌, map, ltb, if◌then◌else◌, get_or, set, ℤ, pos, negsuc,
}
use pdc_pop3d.CString.{Bytes, equal}
use pdc_pop3d.Global.{User, GlobalConfiguration}
use pdc_pop3d.Pop3.Reply
use pdc_pop3d.Pop3.State.{
  transaction, Env, M, ◌>>=◌, ◌>>◌, pure, get, modify_conn, modify_shared, send_data,
}
use pdc_pop3d.Pop3.Files.{joined, retrieve_emails}

-- `sem_post` on every user of that name.
unfoldable pub post_users : Bytes → List User → List User
post_users username =
    map λ u. if equal u.name username then record u { semaphore = u.semaphore + 1 } else u

-- The decrement of `sem_trywait` and of `sem_wait`, on the user `i`.
unfoldable pub acquire : ℕ → User → GlobalConfiguration → GlobalConfiguration
acquire i u conf = record conf {
  users = set conf.users i (record u { semaphore = u.semaphore - 1 });
}

-- Where the mails of the connection's user lie.
abbrev pub mail_path : GlobalConfiguration → Bytes → Bytes
mail_path conf username = joined conf.mailroot_folder (joined username conf.maildir_folder)

module _ {D : Type 0} (env : Env D) where
  unfoldable pub user_action : Bytes → M D ℤ
  user_action argument = do
    modify_conn (λ c. record c { username = argument })
    send_data env Reply.ok_response
    pure (pos 0)

  unfoldable pub load_mails : M D (Unit {0})
  load_mails s = some (tt, retrieve_emails env (mail_path s.shared.conf s.conn.username) s)

  -- What follows `sem_trywait` for the user `i`, whose password matched. While `sem_wait` blocks,
  -- the other threads go on.
  unfoldable pub log_in : ℕ → User → M D ℤ
  log_in i u =
      if ltb 0 u.semaphore
      then (do
        modify_shared (λ h. record h { conf = acquire i u h.conf })
        send_data env Reply.ok_logged_in
        modify_conn (λ c. record c { status = transaction })
        load_mails
        pure (pos 1))
      else (do
        send_data env Reply.err_user_already_logged_in
        modify_shared (env.wake i)
        modify_shared (λ h. record h { conf = acquire i (get_or h.conf.users i u) h.conf })
        send_data env Reply.ok_permission_granted
        pure (pos 1))

  -- The loop over the users, at index `i`.
  unfoldable pub pass_from : ℕ → List User → Bytes → Bytes → M D ℤ
  pass_from i [] username argument = do send_data env Reply.err_auth; pure (pos 0)
  pass_from i (u ∷ us) username argument =
      let rest = pass_from (i + 1) us username argument in
      if equal username u.name
      then if equal u.pass argument then log_in i u else (do
        modify_conn (λ c. record c { username = [] })
        send_data env Reply.err_auth
        pure (negsuc 0))
      else rest

  unfoldable pub pass_action : Bytes → M D ℤ
  pass_action argument = do
    s ← get
    if equal s.conn.username []
        then (do send_data env Reply.err_no_username; pure (negsuc 0))
        else pass_from 0 s.shared.conf.users s.conn.username argument
