-- ===== src/Pop3/Login/Kept.antt =====
-- USER and PASS of src/parser/pop3_parserADT.c keep the array of mails and the read buffer.
use pdc_pop3d.Prelude.{
  ℕ, ◌+◌, ◌≡◌, refl, ◌∙◌, List, [], ◌∷◌, if◌then◌else◌, ltb, get_or, Bool-cases, Option-cases, inl,
  inr, pos, negsuc,
}
use pdc_pop3d.CString.{Bytes, codes, equal}
use pdc_pop3d.Step.Post.{pure-Post, same-Post}
use pdc_pop3d.Step.Keeps.{Keeps, bind-Keeps, pure-Keeps, get-Keeps, if-Keeps}
use pdc_pop3d.Buffer.{Buffer}
use pdc_pop3d.Global.{User}
use pdc_pop3d.Pop3.Reply
use pdc_pop3d.Pop3.State.{Connection, State, Env, DirEntry, transaction, ◌>>◌, pure, send_data}
use pdc_pop3d.Pop3.State.Kept.{
  Holds, Sound, send_data-Keeps, reply-Keeps, modify_conn-Keeps, modify_shared-Keeps,
}
use pdc_pop3d.Pop3.Files.{
  max_path_length, max_emails, snprintf, joined, add_mail, add_entries,
  retrieve_emails_from_directory, retrieve_emails,
}
use pdc_pop3d.Pop3.Files.Loading.{retrieve_emails_from_directory-Loads}
use pdc_pop3d.Pop3.Login.{
  acquire, mail_path, load_mails, log_in, pass_from, user_action, pass_action,
}

module _ {D : Type 0} (env : Env D) where
  -- Loading does not touch the read buffer.
  add_entries-read :
      (path dir : Bytes) (es : List DirEntry) (s : State D)
      → (add_entries env path dir es s).conn.info_read_buff ≡ s.conn.info_read_buff
  unfolding add_entries add_mail
  add_entries-read path dir [] s = refl
  add_entries-read path dir (e ∷ es) s = elim (Bool-cases e.is_regular) [
    | inl r ↦ elim (Bool-cases (ltb s.conn.num_emails max_emails)) [
      | inl f ↦ rw (r, f) (add_entries-read path dir es (add_mail env path dir e s))
      | inr f ↦ rw (r, f) refl
    ]
    | inr r ↦ rw r (add_entries-read path dir es s)
  ]

  directory-read :
      (path dir : Bytes) (s : State D)
      → (retrieve_emails_from_directory env path dir s).conn.info_read_buff ≡ s.conn.info_read_buff
  unfolding retrieve_emails_from_directory
  directory-read path dir s =
      elim (Option-cases
        (env.list_dir s.shared.disk (snprintf max_path_length (joined path dir)))) [
          | inl e ↦ rw (e, retrieve_emails_from_directory) refl
          | inr (es, e) ↦
              rw (e, retrieve_emails_from_directory)
                (add_entries-read (snprintf max_path_length (joined path dir)) dir es s)
        ]

  module _ (b : Buffer) where
    directory-Holds :
        (path dir : Bytes) (s : State D)
        → Holds b s.conn
        → Holds b (retrieve_emails_from_directory env path dir s).conn
    directory-Holds path dir s i =
        let l =
          retrieve_emails_from_directory-Loads env path dir s
            (record { cells = i.cells; room = i.room }) in
        record {
          cells = l.fits.cells;
          room = l.fits.room;
          read_is = directory-read path dir s ∙ i.read_is;
        }

    load_mails-Keeps : Keeps (Sound env b) (load_mails env)
    unfolding load_mails retrieve_emails
    load_mails-Keeps = record {
      kept = λ s i.
          let path = mail_path s.shared.conf s.conn.username in
          let s1 = retrieve_emails_from_directory env path (codes "cur") s in
          let s2 = retrieve_emails_from_directory env path (codes "new") s1 in
          same-Post (λ _. Sound env b) (load_mails env) (pure tt) s s2 refl
            (pure-Post (λ _. Sound env b) tt s2
              (directory-Holds path (codes "new") s1 (directory-Holds path (codes "cur") s i)));
    }

    with_username : (c : Connection) (w : Bytes) → Holds b c → Holds b (record c { username = w })
    with_username c w i = record { cells = i.cells; room = i.room; read_is = i.read_is }

    log_in-Keeps : (n : ℕ) (u : User) → Keeps (Sound env b) (log_in env n u)
    unfolding log_in
    log_in-Keeps n u =
        let I = Sound env b in
        if-Keeps I (ltb 0 u.semaphore) _ _
          (bind-Keeps I _ _
            (modify_shared-Keeps env b (λ h. record h { conf = acquire n u h.conf }))
            (λ _. bind-Keeps I _ _ (send_data-Keeps env b Reply.ok_logged_in) (λ _.
              bind-Keeps I _ _
                (modify_conn-Keeps env b (λ c. record c { status = transaction })
                  (λ c i. record { cells = i.cells; room = i.room; read_is = i.read_is }))
                (λ _.
                  bind-Keeps I (load_mails env) _ load_mails-Keeps (λ _. pure-Keeps I (pos 1))))))
          (bind-Keeps I _ _ (send_data-Keeps env b Reply.err_user_already_logged_in) (λ _.
            bind-Keeps I _ _ (modify_shared-Keeps env b (env.wake n)) (λ _.
              bind-Keeps I _ _
                (modify_shared-Keeps env b
                  (λ h. record h { conf = acquire n (get_or h.conf.users n u) h.conf }))
                (λ _. reply-Keeps env b Reply.ok_permission_granted (pos 1)))))

    pass_from-Keeps :
        (n : ℕ) (us : List User) (username argument : Bytes)
        → Keeps (Sound env b) (pass_from env n us username argument)
    unfolding pass_from
    pass_from-Keeps n [] username argument = reply-Keeps env b Reply.err_auth (pos 0)
    pass_from-Keeps n (u ∷ us) username argument =
        let I = Sound env b in
        if-Keeps I (equal username u.name) _ _
          (if-Keeps I (equal u.pass argument) _ _ (log_in-Keeps n u) (
            bind-Keeps I _ _
              (modify_conn-Keeps env b (λ c. record c { username = [] })
                (λ c i. with_username c [] i))
              (λ _. reply-Keeps env b Reply.err_auth (negsuc 0))))
          (pass_from-Keeps (n + 1) us username argument)

    pub pass_action-Keeps : (argument : Bytes) → Keeps (Sound env b) (pass_action env argument)
    unfolding pass_action
    pass_action-Keeps argument =
        get-Keeps (Sound env b)
          (λ s.
            if equal s.conn.username []
            then send_data env Reply.err_no_username >> pure (negsuc 0)
            else pass_from env 0 s.shared.conf.users s.conn.username argument)
          (λ s i.
            if-Keeps (Sound env b) (equal s.conn.username []) _ _
              (reply-Keeps env b Reply.err_no_username (negsuc 0))
              (pass_from-Keeps 0 s.shared.conf.users s.conn.username argument))

    pub user_action-Keeps : (argument : Bytes) → Keeps (Sound env b) (user_action env argument)
    unfolding user_action
    user_action-Keeps argument =
        bind-Keeps (Sound env b) _ _
          (modify_conn-Keeps env b (λ c. record c { username = argument })
            (λ c i. with_username c argument i))
          (λ _. reply-Keeps env b Reply.ok_response (pos 0))
