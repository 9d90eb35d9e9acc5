-- ===== src/Pop3/Login/Outcome.antt =====
-- What `pass_action` of src/parser/pop3_parserADT.c does for a user who gives the right password.
use pdc_pop3d.Prelude.{
  ℕ, ◌-◌, set, take, sym, subst, suc, ◌+◌, ◌≡◌, ◌<◌, refl, ap, ◌∙◌, true, false, some, List, [],
  ◌∷◌, ◌++◌, All, arith, length, ltb, lt→ltb, get_or, ℤ, pos,
}
use pdc_pop3d.CString.{Bytes, codes, equal, equal_refl}
use pdc_pop3d.Global.{User}
use pdc_pop3d.Pop3.Reply
use pdc_pop3d.Pop3.State.{
  transaction, State, Env, M, ◌>>◌, pure, modify_conn, modify_shared, send_data,
}
use pdc_pop3d.Pop3.State.Send.{Ready, Sends, then_run, send_data-Sends}
use pdc_pop3d.Pop3.Files.{retrieve_emails, retrieve_emails_from_directory}
use pdc_pop3d.Pop3.Files.Loading.{
  FitsArray, Loads, get_or_nil, retrieve_emails_from_directory-Loads,
}
use pdc_pop3d.Pop3.Login.{acquire, mail_path, pass_from, pass_action, log_in, load_mails}
use pdc_pop3d.Pop3.Login.Safety.{pass_from_other}

-- The user `u` is the first of that name, behind `front`.
pub record IsFirst (users : List User) (username : Bytes) (front : List User) (u : User)
    (back : List User) : Type 0 where
  pub users_are : users ≡ front ++ u ∷ back
  pub others : All (λ v. equal username v.name ≡ false) front
  pub name_is : u.name ≡ username

set-append :
    (front : List User) (u : User) (back : List User) (v : User)
    → set (front ++ u ∷ back) (length front) v ≡ front ++ v ∷ back
set-append [] u back v = refl
set-append (w ∷ front) u back v = ap (◌∷◌ w) (set-append front u back v)

module _ {D : Type 0} (env : Env D) where
  pass_from-found :
      (i : ℕ) (front : List User) (u : User) (back : List User) (username : Bytes) (s : State D)
      → All (λ v. equal username v.name ≡ false) front
      → u.name ≡ username
      → pass_from env i (front ++ u ∷ back) username u.pass s ≡ log_in env (i + length front) u s
  unfolding pass_from
  pass_from-found i [] u back username s others e =
      let same : equal username u.name ≡ true = ap (equal username) e ∙ equal_refl username in
      let index : i + 0 ≡ i = omega arith in rw (same, equal_refl u.pass, index) refl
  pass_from-found i (v ∷ front) u back username s others e =
      let index : i + 1 + length front ≡ i + suc (length front) = omega arith in
      pass_from_other env i v (front ++ u ∷ back) username u.pass s others.0
      ∙ pass_from-found (i + 1) front u back username s others.1 e
      ∙ ap (λ k. log_in env k u s) index

  pass_action-found :
      (front : List User) (u : User) (back : List User) (s : State D)
      → equal s.conn.username [] ≡ false
      → IsFirst s.shared.conf.users s.conn.username front u back
      → pass_action env u.pass s ≡ log_in env (length front) u s
  pass_action-found front u back s named first =
      run named
      ∙ ap (λ us. pass_from env 0 us s.conn.username u.pass s) first.users_are
      ∙ pass_from-found 0 front u back s.conn.username s first.others first.name_is
      ∙ ap (λ k. log_in env k u s) (omega arith)
    where
      run :
          equal s.conn.username [] ≡ false
          → pass_action env u.pass s ≡ pass_from env 0 s.shared.conf.users s.conn.username u.pass s
      run e = unfold pass_action in rw e refl

  -- The semaphore of the user `u` is one less.
  abbrev pub acquired : ℕ → User → State D → State D
  acquired i u s = record s { shared = record s.shared { conf = acquire i u s.shared.conf } }

  -- The connection is in TRANSACTION, and the mails of its user are loaded.
  abbrev pub logged_in : State D → State D
  logged_in s =
      retrieve_emails env (mail_path s.shared.conf s.conn.username)
        (record s { conn = record s.conn { status = transaction } })

  log_in-free :
      (i : ℕ) (u : User) (s : State D)
      → Ready env s
      → 0 < u.semaphore
      → (s' : State D) × (log_in env i u s ≡ some (pos 1, logged_in s'))
        × Sends env Reply.ok_logged_in (acquired i u s) s'
  log_in-free i u s r h =
      let (s', run, sent) =
        send_data-Sends env Reply.ok_logged_in (acquired i u s)
          (record { honest = r.honest; reading = r.reading; fresh = r.fresh }) (omega arith)
          (omega arith) in
      (
        s',
        start (lt→ltb 0 u.semaphore h)
            ∙ then_run (send_data env Reply.ok_logged_in) rest run
            ∙ end s',
        sent,
      )
    where
      rest : M D ℤ
      rest = do modify_conn (λ c. record c { status = transaction }); load_mails env; pure (pos 1)

      start :
          ltb 0 u.semaphore ≡ true
          → log_in env i u s ≡ (send_data env Reply.ok_logged_in >> rest) (acquired i u s)
      start e = unfold log_in in rw e refl

      end : (s' : State D) → rest s' ≡ some (pos 1, logged_in s')
      end s' = unfold load_mails in refl

  pass_action-free :
      (front : List User) (u : User) (back : List User) (s : State D)
      → Ready env s
      → equal s.conn.username [] ≡ false
      → IsFirst s.shared.conf.users s.conn.username front u back
      → 0 < u.semaphore
      → (s' : State D) × (pass_action env u.pass s ≡ some (pos 1, logged_in s'))
        × Sends env Reply.ok_logged_in (acquired (length front) u s) s'
  pass_action-free front u back s r named first h =
      let (s', run, sent) = log_in-free (length front) u s r h in
      (s', pass_action-found front u back s named first ∙ run, sent)

  -- The semaphore of `u`, behind the users `front`, is one less.
  abbrev pub taken : List User → User → List User → State D → State D
  taken front u back s = record s {
    shared = record s.shared {
      conf = record s.shared.conf {
        users = front ++ record u { semaphore = u.semaphore - 1 } ∷ back;
      };
    };
  }

  acquired-taken :
      (front : List User) (u : User) (back : List User) (s : State D)
      → s.shared.conf.users ≡ front ++ u ∷ back
      → acquired (length front) u s ≡ taken front u back s
  unfolding acquire
  acquired-taken front u back s e =
      ap
        (λ us. record s { shared = record s.shared { conf = record s.shared.conf { users = us } } })
        (ap (λ us. set us (length front) (record u { semaphore = u.semaphore - 1 })) e
          ∙ set-append front u back (record u { semaphore = u.semaphore - 1 }))

  -- A directory of the user's mails, in a path of at most 255 characters.
  abbrev pub mailbox : State D → Bytes → Bytes
  mailbox s dir = take 255 (
      (s.shared.conf.mailroot_folder
        ++ b'/' ∷ (s.conn.username ++ b'/' ∷ s.shared.conf.maildir_folder))
      ++ b'/' ∷ dir)

  -- The regular files of the directory are loaded, from the state `s` to `s'`.
  abbrev pub LoadsFrom : Bytes → State D → State D → Type 0
  LoadsFrom dir s s' =
      Loads env (mailbox s dir) dir (get_or_nil (env.list_dir s.shared.disk (mailbox s dir))) s s'

  abbrev pub in_transaction : State D → State D
  in_transaction s = record s { conn = record s.conn { status = transaction } }

  -- PASS with the password of the first configured user of the name that USER gave, whose semaphore
  -- is free: the semaphore is one less, the reply says that the user is logged in, the connection
  -- goes to TRANSACTION, and the mails of that user's directory `cur` and then those of `new` are
  -- loaded, as many as the array of 64 has room for. Nothing else changes but the count of bytes,
  -- the number of `send` calls and the cells of the write buffer. The peer is taken to go on
  -- reading, and the mails that are counted to lie in their array.
  pub pass_action_logs_in :
      (front : List User) (u : User) (back : List User) (s : State D)
      → Ready env s
      → FitsArray s.conn
      → equal s.conn.username [] ≡ false
      → IsFirst s.shared.conf.users s.conn.username front u back
      → 0 < u.semaphore
      → (s1 s2 s3 : State D) × (pass_action env u.pass s ≡ some (pos 1, s3))
        × Sends env Reply.ok_logged_in (taken front u back s) s1
        × LoadsFrom (codes "cur") (in_transaction s1) s2
        × LoadsFrom (codes "new") s2 s3
  unfolding retrieve_emails
  pass_action_logs_in front u back s r fits named first h =
      let (s1, run, sent) = pass_action-free front u back s r named first h in
      let path = mail_path s1.shared.conf s1.conn.username in
      let from = in_transaction s1 in
      let s2 = retrieve_emails_from_directory env path (codes "cur") from in
      let kept : s1.conn.mails ≡ s.conn.mails = ap (λ x. x.conn.mails) sent.frame in
      let same_num : s1.conn.num_emails ≡ s.conn.num_emails =
        ap (λ x. x.conn.num_emails) sent.frame in
      let fits1 : FitsArray from.conn = record {
        cells = ap length kept ∙ fits.cells;
        room = omega (arith, same_num, fits.room);
      } in
      let cur = retrieve_emails_from_directory-Loads env path (codes "cur") from fits1 in
      let new = retrieve_emails_from_directory-Loads env path (codes "new") s2 cur.fits in
      let same_path : (dir : Bytes) → mailbox from dir ≡ mailbox s2 dir =
        λ dir. ap (λ x. mailbox x dir) (sym cur.frame) in
      (
        s1,
        s2,
        retrieve_emails_from_directory env path (codes "new") s2,
        run,
        subst (λ x. Sends env Reply.ok_logged_in x s1)
            (acquired-taken front u back s first.users_are) sent,
        cur,
        subst
            (λ p.
              Loads env p (codes "new") (get_or_nil (env.list_dir s2.shared.disk p)) s2
                (retrieve_emails_from_directory env path (codes "new") s2))
            (same_path (codes "new")) new,
      )

  -- The state in which a client goes on who had to wait.
  abbrev pub woken : ℕ → User → State D → State D
  woken i u s =
      let h = env.wake i s.shared in
      record s { shared = record h { conf = acquire i (get_or h.conf.users i u) h.conf } }

  log_in-taken :
      (i : ℕ) (u : User) (s : State D)
      → Ready env s
      → ltb 0 u.semaphore ≡ false
      → (s1 s2 : State D) × (log_in env i u s ≡ some (pos 1, s2))
        × Sends env Reply.err_user_already_logged_in s s1
        × Sends env Reply.ok_permission_granted (woken i u s1) s2
  log_in-taken i u s r e =
      let (s1, run1, sent1) =
        send_data-Sends env Reply.err_user_already_logged_in s r (omega arith) (omega arith) in
      let r1 = sent1.ready in
      let (s2, run2, sent2) =
        send_data-Sends env Reply.ok_permission_granted (woken i u s1)
          (record { honest = r1.honest; reading = r1.reading; fresh = r1.fresh }) (omega arith)
          (omega arith) in
      (
        s1,
        s2,
        start e
            ∙ then_run (send_data env Reply.err_user_already_logged_in) _ run1
            ∙ then_run (send_data env Reply.ok_permission_granted) (pure (pos 1)) run2,
        sent1,
        sent2,
      )
    where
      start :
          ltb 0 u.semaphore ≡ false
          → log_in env i u s
            ≡ (send_data env Reply.err_user_already_logged_in
                  >> (modify_shared (env.wake i)
                      >> (modify_shared
                            (λ h. record h { conf = acquire i (get_or h.conf.users i u) h.conf })
                          >> (send_data env Reply.ok_permission_granted >> pure (pos 1)))))
                s
      start e = unfold log_in in rw e refl

  -- PASS with the right password of a user whose semaphore is taken tells the client in the end
  -- that permission is granted, but the status of the connection and its mails are what they were:
  -- the user is not logged in. The peer is taken to go on reading.
  pub pass_action_waits :
      (front : List User) (u : User) (back : List User) (s : State D)
      → Ready env s
      → equal s.conn.username [] ≡ false
      → IsFirst s.shared.conf.users s.conn.username front u back
      → u.semaphore ≡ 0
      → (s' : State D) × (pass_action env u.pass s ≡ some (pos 1, s'))
        × (s'.wire.sent
            ≡ s.wire.sent ++ Reply.err_user_already_logged_in ++ Reply.ok_permission_granted)
        × (s'.conn.status ≡ s.conn.status)
        × (s'.conn.mails ≡ s.conn.mails)
  pass_action_waits front u back s r named first h =
      let (s1, s2, run, sent1, sent2) = log_in-taken (length front) u s r (ap (ltb 0) h) in
      (
        s2,
        pass_action-found front u back s named first ∙ run,
        sent2.all_sent ∙ ap (λ x. x ++ Reply.ok_permission_granted) sent1.all_sent,
        ap (λ x. x.conn.status) sent2.frame ∙ ap (λ x. x.conn.status) sent1.frame,
        ap (λ x. x.conn.mails) sent2.frame ∙ ap (λ x. x.conn.mails) sent1.frame,
      )
