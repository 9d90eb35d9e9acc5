-- ===== src/Pop3/Quit/Kept.antt =====
-- QUIT, src/parser/pop3_parserADT.c, keeps the array of mails and the read buffer.
use pdc_pop3d.Prelude.{
  ℕ, zero, suc, ◌+◌, refl, ◌∙◌, Bool, true, false, ◌==◌, if◌then◌else◌, get_or, length-set, ℤ, pos,
  negsuc,
}
use pdc_pop3d.CString.{Bytes}
use pdc_pop3d.Text.{deref}
use pdc_pop3d.Step.Post.{pure-Post, same-Post}
use pdc_pop3d.Step.Keeps.{Keeps, bind-Keeps, pure-Keeps, get-Keeps, if-Keeps}
use pdc_pop3d.Buffer.{Buffer}
use pdc_pop3d.Pop3.Reply
use pdc_pop3d.Pop3.State.{
  update, MailStatus, unchanged, deleted, retrieved, Mail, State, Env, M, ◌>>=◌, ◌>>◌, pure, get,
  modify_conn, modify_shared, send_data,
}
use pdc_pop3d.Pop3.State.Kept.{Sound, send_data-Keeps, modify_conn-Keeps, modify_shared-Keeps}
use pdc_pop3d.Pop3.Files.{delete_file, move_file_new_to_cur}
use pdc_pop3d.Pop3.Login.{post_users, mail_path}
use pdc_pop3d.Pop3.Actions.{is_authorization, no_mail, set_status}
use pdc_pop3d.Pop3.Actions.Kept.{set_status-Keeps}
use pdc_pop3d.Pop3.Quit.{
  quit_path, set_cur, close_fd, on_disk, keep_read, by_status, quit_mail, quit_mails, quit_close,
  quit_action,
}

module _ {D : Type 0} (env : Env D) (b : Buffer) where
  close_fd-Keeps : Keeps (Sound env b) (close_fd env)
  unfolding close_fd
  close_fd-Keeps = record {
    kept = λ s i.
        let s' : State D = record s { wire = record s.wire { closes = s.wire.closes + 1 } } in
        same-Post (λ _. Sound env b) (close_fd env) (pure (env.close s.wire.closes)) s s' refl
          (pure-Post (λ _. Sound env b) (env.close s.wire.closes) s' i);
  }

  on_disk-Keeps : (f : D → Bool × D) → Keeps (Sound env b) (on_disk env f)
  unfolding on_disk
  on_disk-Keeps f = record {
    kept = λ s i.
        let s' : State D = record s { shared = record s.shared { disk = (f s.shared.disk).1 } } in
        same-Post (λ _. Sound env b) (on_disk env f) (pure (f s.shared.disk).0) s s' refl
          (pure-Post (λ _. Sound env b) (f s.shared.disk).0 s' i);
  }

  -- A step that says whether it went well, and what follows then.
  abbrev well : {A : Type 0} → Bool → M D A → M D A → M D A
  well done m k = elim done [ true ↦ m | false ↦ k ]

  well-Keeps :
      {A : Type 0} (done : Bool) (m k : M D A)
      → Keeps (Sound env b) m
      → Keeps (Sound env b) k
      → Keeps (Sound env b) (well done m k)
  well-Keeps true m k h h' = h
  well-Keeps false m k h h' = h'

  keep_read-Keeps : (i : ℕ) (m : Mail) → Keeps (Sound env b) (keep_read env i m)
  unfolding keep_read set_cur
  keep_read-Keeps i m =
      let I = Sound env b in
      let moved = λ (s : State D).
        on_disk env
          (move_file_new_to_cur env (mail_path s.shared.conf s.conn.username) m.filename) in
      get-Keeps I
        (λ s.
          if deref m.folder == b'c'
          then pure true
          else moved s >>= λ done. well done (modify_conn (set_cur i) >> pure true) (pure false))
        (λ s h. if-Keeps I (deref m.folder == b'c') _ _ (pure-Keeps I true) (
          bind-Keeps I (moved s) _ (on_disk-Keeps _) (λ done.
            well-Keeps done _ _
              (bind-Keeps I (modify_conn (set_cur i)) _
                (modify_conn-Keeps env b (set_cur i) (λ c h. record {
                  cells = length-set c.mails i _ ∙ h.cells;
                  room = h.room;
                  read_is = h.read_is;
                }))
                (λ _. pure-Keeps I true))
              (pure-Keeps I false))))

  by_status-Keeps :
      (i : ℕ) (m : Mail) (st : MailStatus) → Keeps (Sound env b) (by_status env i m st)
  unfolding by_status
  by_status-Keeps i m deleted =
      get-Keeps (Sound env b)
        (λ s. on_disk env (delete_file env (quit_path s.shared.conf s.conn.username m)) >>= λ _.
          pure true)
        (λ s h. bind-Keeps (Sound env b) _ _ (on_disk-Keeps _) (λ _. pure-Keeps (Sound env b) true))
  by_status-Keeps i m retrieved = keep_read-Keeps i m
  by_status-Keeps i m unchanged = pure-Keeps (Sound env b) true

  quit_mail-Keeps : (i : ℕ) → Keeps (Sound env b) (quit_mail env i)
  unfolding quit_mail
  quit_mail-Keeps i =
      let I = Sound env b in
      let status = λ (s : State D).
        by_status env i (get_or s.conn.mails i no_mail) (get_or s.conn.mails i no_mail).status in
      get-Keeps I
        (λ s. status s >>= λ done. well done (set_status i unchanged >> pure true) (pure false))
        (λ s h. bind-Keeps I (status s) _ (by_status-Keeps i _ _) (λ done.
          well-Keeps done _ _
            (bind-Keeps I (set_status i unchanged) _ (set_status-Keeps env b i unchanged)
              (λ _. pure-Keeps I true))
            (pure-Keeps I false)))

  quit_mails-Keeps : (n i : ℕ) → Keeps (Sound env b) (quit_mails env n i)
  unfolding quit_mails
  quit_mails-Keeps zero i = pure-Keeps (Sound env b) true
  quit_mails-Keeps (suc n) i =
      bind-Keeps (Sound env b) (quit_mail env i)
        (λ done. well done (quit_mails env n (i + 1)) (pure false)) (quit_mail-Keeps i)
        (λ done. well-Keeps done _ _ (quit_mails-Keeps n (i + 1)) (pure-Keeps (Sound env b) false))

  abbrev post : M D ℤ
  post = do
    s ← get
    modify_shared
        (λ h. record h { conf = record h.conf { users = post_users s.conn.username h.conf.users } })
    pure (pos 1)

  quit_close-Keeps : Keeps (Sound env b) (quit_close env)
  unfolding quit_close
  quit_close-Keeps =
      let I = Sound env b in
      let posted = λ (s : State D).
        modify_shared (λ h. record h {
          conf = record h.conf { users = post_users s.conn.username h.conf.users };
        })
        >> pure (pos 1) in
      bind-Keeps I (close_fd env) (λ closed. get >>= λ s. well closed (posted s) (pure (negsuc 0)))
        close_fd-Keeps
        (λ closed.
          get-Keeps I (λ s. well closed (posted s) (pure (negsuc 0)))
            (λ s h.
              well-Keeps closed (posted s) (pure (negsuc 0))
                (bind-Keeps I _ _ (modify_shared-Keeps env b _) (λ _. pure-Keeps I (pos 1)))
                (pure-Keeps I (negsuc 0))))

  pub quit_action-Keeps : (argument : Bytes) → Keeps (Sound env b) (quit_action env argument)
  unfolding quit_action
  quit_action-Keeps argument =
      let I = Sound env b in
      let leave : M D ℤ = close_fd env >>= λ closed. pure (if closed then pos 1 else negsuc 0) in
      let finish = λ (s : State D).
        modify_conn (λ c. record c { status = update })
        >> (quit_mails env s.conn.num_emails 0 >>= λ done.
            well done (quit_close env) (pure (negsuc 0))) in
      bind-Keeps I (send_data env Reply.ok_sign_off) _ (send_data-Keeps env b Reply.ok_sign_off)
        (λ _.
          get-Keeps I (λ s. if is_authorization s.conn.status then leave else finish s)
            (λ s h.
              if-Keeps I (is_authorization s.conn.status) leave (finish s)
                (bind-Keeps I (close_fd env) _ close_fd-Keeps (λ closed. pure-Keeps I _))
                (bind-Keeps I (modify_conn (λ c. record c { status = update })) _
                  (modify_conn-Keeps env b (λ c. record c { status = update })
                    (λ c h. record { cells = h.cells; room = h.room; read_is = h.read_is }))
                  (λ _.
                    bind-Keeps I (quit_mails env s.conn.num_emails 0) _
                      (quit_mails-Keeps s.conn.num_emails 0)
                      (λ done.
                        well-Keeps done (quit_close env) (pure (negsuc 0)) quit_close-Keeps
                          (pure-Keeps I (negsuc 0)))))))
