-- ===== src/Pop3/Quit.antt =====
-- QUIT: `quit_action` of src/parser/pop3_parserADT.c.
pub mod Removal
pub mod Kept
use pdc_pop3d.Prelude.{
  ℕ, zero, suc, ◌+◌, Bool, true, false, some, ◌==◌, if◌then◌else◌, get_or, length, set, ℤ, pos,
  negsuc,
}
use pdc_pop3d.CString.{Bytes, codes}
use pdc_pop3d.Text.{deref}
use pdc_pop3d.Global.{GlobalConfiguration}
use pdc_pop3d.Pop3.Reply
use pdc_pop3d.Pop3.State.{
  update, MailStatus, unchanged, deleted, retrieved, Mail, Connection, Env, M, ◌>>=◌, ◌>>◌, pure,
  get, modify_conn, modify_shared, send_data,
}
use pdc_pop3d.Pop3.Files.{snprintf, delete_file, move_file_new_to_cur}
use pdc_pop3d.Pop3.Login.{post_users, mail_path}
use pdc_pop3d.Pop3.Actions.{is_authorization, no_mail, set_status}
use pdc_pop3d.Pop3.Retr.{full_path}

-- The path of a mail to be deleted, in a buffer whose length counts the user's name twice.
unfoldable pub quit_path : GlobalConfiguration → Bytes → Mail → Bytes
quit_path conf username m =
    snprintf
      (length conf.mailroot_folder
        + length username
        + length username
        + length conf.maildir_folder
        + length m.folder
        + length m.filename
        + 4)
      (full_path conf username m)

-- `strcpy(mails[i].folder, "cur")`
unfoldable pub set_cur : ℕ → Connection → Connection
set_cur i c = record c {
  mails = set c.mails i (record (get_or c.mails i no_mail) { folder = codes "cur" });
}

module _ {D : Type 0} (env : Env D) where
  unfoldable pub close_fd : M D Bool
  close_fd s =
      some
        (env.close s.wire.closes, record s { wire = record s.wire { closes = s.wire.closes + 1 } })

  -- A file operation on the shared disk: whether it succeeded.
  unfoldable pub on_disk : (D → Bool × D) → M D Bool
  on_disk f s =
      let (done, d) = f s.shared.disk in
      some (done, record s { shared = record s.shared { disk = d } })

  -- A mail that was read and still lies in `new`: whether the loop may go on.
  unfoldable pub keep_read : ℕ → Mail → M D Bool
  keep_read i m = do
    s ← get
    if deref m.folder == b'c' then pure true else (do
      moved ←
          on_disk (move_file_new_to_cur env (mail_path s.shared.conf s.conn.username) m.filename)
      elim moved [ true ↦ (do modify_conn (set_cur i); pure true) | false ↦ pure false ])

  -- What the loop does by the status of the mail at `i`.
  unfoldable pub by_status : ℕ → Mail → MailStatus → M D Bool
  by_status i m deleted = do
    s ← get
    _ ← on_disk (delete_file env (quit_path s.shared.conf s.conn.username m))
    pure true
  by_status i m retrieved = keep_read i m
  by_status i m unchanged = pure true

  -- The body of the loop for the mail at `i`.
  unfoldable pub quit_mail : ℕ → M D Bool
  quit_mail i = do
    s ← get
    let m = get_or s.conn.mails i no_mail
    done ← by_status i m m.status
    elim done [ true ↦ (do set_status i unchanged; pure true) | false ↦ pure false ]

  -- The loop over the `n` mails from index `i` on, and whether it came to its end.
  unfoldable pub quit_mails : ℕ → ℕ → M D Bool
  quit_mails zero i = pure true
  quit_mails (suc n) i = do
    done ← quit_mail i
    elim done [ true ↦ quit_mails n (i + 1) | false ↦ pure false ]

  -- Behind the loop: the connection is closed, and the user's semaphore posted.
  unfoldable pub quit_close : M D ℤ
  quit_close = do
    closed ← close_fd
    s ← get
    elim closed [
      | false ↦ pure (negsuc 0)
      | true ↦ (do
        modify_shared (λ h. record h {
          conf = record h.conf { users = post_users s.conn.username h.conf.users };
        })
        pure (pos 1))
    ]

  unfoldable pub quit_action : Bytes → M D ℤ
  quit_action argument = do
    send_data env Reply.ok_sign_off
    s ← get
    if is_authorization s.conn.status
        then (do closed ← close_fd; pure (if closed then pos 1 else negsuc 0))
        else (do
          modify_conn (λ c. record c { status = update })
          done ← quit_mails s.conn.num_emails 0
          elim done [ true ↦ quit_close | false ↦ pure (negsuc 0) ])
