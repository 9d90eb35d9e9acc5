-- ===== src/Pop3/Quit/Removal.antt =====
-- Which files `quit_action` of src/parser/pop3_parserADT.c removes.
use pdc_pop3d.Prelude.{
  ℕ, zero, suc, ◌+◌, ◌≤◌, ◌<◌, ◌≡◌, ◌≢◌, refl, sym, ap, ◌∙◌, subst, true, some, List, [], ◌∷◌, All,
  arith, length, get_or, take, drop, ◌++◌, if◌then◌else◌, Bool-cases, inl, inr,
}
use pdc_pop3d.CString.{Bytes}
use pdc_pop3d.Global.{GlobalConfiguration}
use pdc_pop3d.Pop3.State.{MailStatus, unchanged, deleted, retrieved, Mail, State, Env}
use pdc_pop3d.Pop3.State.Send.{bind_run, then_run}
use pdc_pop3d.Pop3.Files.{delete_file}
use pdc_pop3d.Pop3.Actions.Marks.{mark, length-mark, set_status-run}
use pdc_pop3d.Pop3.Actions.{no_mail, set_status}
use pdc_pop3d.Pop3.Retr.{full_path}
use pdc_pop3d.Pop3.Retr.Paths.{quit_path_iff}
use pdc_pop3d.Pop3.Quit.{on_disk, by_status, quit_mail, quit_mails}

head-drop :
    (i : ℕ) (xs : List Mail) → i < length xs → drop i xs ≡ get_or xs i no_mail ∷ drop (suc i) xs
head-drop i [] h = absurd (omega arith)
head-drop zero (x ∷ xs) h = refl
head-drop (suc i) (x ∷ xs) h = head-drop i xs (omega arith)

drop-mark_before :
    (i : ℕ) (status : MailStatus) (xs : List Mail)
    → drop (suc i) (mark i status xs) ≡ drop (suc i) xs
drop-mark_before i status [] = refl
drop-mark_before zero status (x ∷ xs) = refl
drop-mark_before (suc i) status (x ∷ xs) = drop-mark_before i status xs

module _ {D : Type 0} (env : Env D) where
  -- The disk from which the file of the mail is removed, if it is marked as deleted and there is
  -- such a file.
  abbrev pub without_file : GlobalConfiguration → Bytes → Mail → MailStatus → D → D
  without_file conf username m deleted d =
      let path =
        conf.mailroot_folder
        ++ b'/'
          ∷ (username ++ b'/' ∷ (conf.maildir_folder ++ b'/' ∷ (m.folder ++ b'/' ∷ m.filename))) in
      if env.access d path then (env.remove d path).1 else d
  without_file conf username m unchanged d = d
  without_file conf username m retrieved d = d

  -- The disk without the files of the mails that are marked as deleted.
  abbrev pub without_files : GlobalConfiguration → Bytes → List Mail → D → D
  without_files conf username [] d = d
  without_files conf username (m ∷ ms) d =
      without_files conf username ms (without_file conf username m m.status d)

  -- The mail at `i` is done with.
  abbrev swept : ℕ → Mail → State D → State D
  swept i m s = record s {
    conn = record s.conn { mails = mark i unchanged s.conn.mails };
    shared = record s.shared {
      disk = without_file s.shared.conf s.conn.username m m.status s.shared.disk;
    };
  }

  delete_file_lem :
      (path : Bytes) (d : D)
      → (delete_file env path d).1 ≡ (if env.access d path then (env.remove d path).1 else d)
  unfolding delete_file
  delete_file_lem path d = elim (Bool-cases (env.access d path)) [
    | inl e ↦ rw e refl
    | inr e ↦ rw e refl
  ]

  by_status-run :
      (i : ℕ) (m : Mail) (status : MailStatus) (s : State D)
      → 0 < length s.conn.username
      → status ≢ retrieved
      → by_status env i m status s
        ≡ some (
          true,
          record s {
            shared = record s.shared {
              disk = without_file s.shared.conf s.conn.username m status s.shared.disk;
            };
          },
        )
  unfolding by_status on_disk
  by_status-run i m unchanged s h k = refl
  by_status-run i m deleted s h k =
      ap
        (λ path. some (
          true,
          record s { shared = record s.shared { disk = (delete_file env path s.shared.disk).1 } },
        ))
        ((quit_path_iff s.shared.conf s.conn.username m).1 h)
      ∙ ap (λ d. some (true, record s { shared = record s.shared { disk = d } }))
          (delete_file_lem (full_path s.shared.conf s.conn.username m) s.shared.disk)
  by_status-run i m retrieved s h k = absurd (k refl)

  quit_mail-run :
      (i : ℕ) (s : State D)
      → 0 < length s.conn.username
      → i < length s.conn.mails
      → (get_or s.conn.mails i no_mail).status ≢ retrieved
      → quit_mail env i s ≡ some (true, swept i (get_or s.conn.mails i no_mail) s)
  unfolding quit_mail
  quit_mail-run i s h l k =
      let m = get_or s.conn.mails i no_mail in
      let disk = without_file s.shared.conf s.conn.username m m.status s.shared.disk in
      let s1 = record s { shared = record s.shared { disk = disk } } in
      bind_run (by_status env i m m.status) _ (by_status-run i m m.status s h k)
      ∙ then_run (set_status i unchanged) _ (set_status-run i unchanged s1 l)

  -- The loop of QUIT over `n` mails from index `i` on, none of which is marked as retrieved, for a
  -- user whose name is not empty, comes to its end. The disk is then what `remove` makes of it for
  -- each mail that is marked as deleted, in order and by its full path, if there is such a file; what
  -- the client was sent, the number of mails and the configuration are as they were.
  pub quit_mails-without_files :
      (n i : ℕ) (s : State D)
      → 0 < length s.conn.username
      → i + n ≤ length s.conn.mails
      → All (λ m. m.status ≢ retrieved) (take n (drop i s.conn.mails))
      → (s' : State D) × (quit_mails env n i s ≡ some (true, s'))
        × (s'.shared.disk
            ≡ without_files s.shared.conf s.conn.username
                (take n (drop i s.conn.mails))
                s.shared.disk)
        × (s'.wire ≡ s.wire)
        × (s'.conn.num_emails ≡ s.conn.num_emails)
        × (s'.shared.conf ≡ s.shared.conf)
  unfolding quit_mails
  quit_mails-without_files zero i s h l a = (s, refl, refl, refl, refl, refl)
  quit_mails-without_files (suc n) i s h l a =
      let m = get_or s.conn.mails i no_mail in
      let here = head-drop i s.conn.mails (omega arith) in
      let a' = subst (λ ms. All (λ x. x.status ≢ retrieved) (take (suc n) ms)) here a in
      let next = swept i m s in
      let after : i + 1 ≡ suc i = omega arith in
      let later : drop (i + 1) next.conn.mails ≡ drop (suc i) s.conn.mails =
        ap (λ k. drop k next.conn.mails) after ∙ drop-mark_before i unchanged s.conn.mails in
      let (s', run, disk, wire, num, conf) =
        quit_mails-without_files n (i + 1) next h
          (omega (arith, length-mark i unchanged s.conn.mails))
          (subst (λ ms. All (λ x. x.status ≢ retrieved) (take n ms)) (sym later) a'.1) in
      (
        s',
        bind_run (quit_mail env i) _ (quit_mail-run i s h (omega arith) a'.0) ∙ run,
        disk
            ∙ ap (λ ms. without_files s.shared.conf s.conn.username (take n ms) next.shared.disk)
                later
            ∙ ap (λ ms. without_files s.shared.conf s.conn.username (take (suc n) ms) s.shared.disk)
                (sym here),
        wire,
        num,
        conf,
      )
