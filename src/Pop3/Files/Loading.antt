-- ===== src/Pop3/Files/Loading.antt =====
-- Which mails `retrieve_emails_from_directory` of src/pop3_functions.c loads.
use pdc_pop3d.Prelude.{
  ℕ, suc, ◌+◌, ◌-◌, ◌≤◌, ◌<◌, min, ◌≡◌, refl, sym, ap, ◌∙◌, true, false, List, [], ◌∷◌, ◌++◌, inl,
  inr, arith, length, take, ltb, ltb→lt, Bool-cases, if◌then◌else◌, append-nil, append_assoc,
  take-nil, take-set_self, length-set, Option, none, some, Option-cases,
}
use pdc_pop3d.CString.{Bytes}
use pdc_pop3d.Pop3.State.{Mail, unchanged, Connection, State, DirEntry, Env}
use pdc_pop3d.Pop3.Files.{
  max_path_length, max_filename_length, max_emails, mail_folder_length, snprintf, joined,
  get_file_size, add_mail, add_entries, retrieve_emails_from_directory,
}

-- The regular files of a directory.
abbrev pub regular : List DirEntry → List DirEntry
regular [] = []
regular (e ∷ es) = if e.is_regular then e ∷ regular es else regular es

-- The mails of a connection.
abbrev pub loaded : {D : Type 0} → State D → List Mail
loaded s = take s.conn.num_emails s.conn.mails

-- The array has `MAX_EMAILS` cells, and no more mails are counted.
pub record FitsArray (c : Connection) : Type 0 where
  pub cells : length c.mails ≡ max_emails
  pub room : c.num_emails ≤ max_emails

abbrev pub get_or_nil : Option (List DirEntry) → List DirEntry
get_or_nil none = []
get_or_nil (some es) = es

module _ {D : Type 0} (env : Env D) where
  -- The mails of the files, numbered on from `i`.
  abbrev pub mails_of : D → Bytes → Bytes → ℕ → List DirEntry → List Mail
  mails_of d path dir i [] = []
  mails_of d path dir i (e ∷ es) =
      record {
        index = i + 1;
        octets = get_file_size env d path e.d_name;
        filename = snprintf max_filename_length e.d_name;
        folder = snprintf mail_folder_length dir;
        status = unchanged;
      }
      ∷ mails_of d path dir (i + 1) es

  -- What a loop over a directory is to do: the mails of the first regular files, as many as there
  -- is room for, stand behind those that were there, and the numbers go on behind theirs. Nothing
  -- else changes but the cells of the array behind the mails.
  pub record Loads (path dir : Bytes) (es : List DirEntry) (s s' : State D) : Type 0 where
    pub fits : FitsArray s'.conn
    pub counted : s'.conn.num_emails ≡ min max_emails (s.conn.num_emails + length (regular es))
    pub mails_are :
        loaded s'
        ≡ loaded s
          ++ mails_of s.shared.disk path dir s.shared.next_index
              (take (max_emails - s.conn.num_emails) (regular es))
    pub next_is :
        s'.shared.next_index ≡ s.shared.next_index + (s'.conn.num_emails - s.conn.num_emails)
    pub frame : s' ≡ record s {
      conn = record s.conn { mails = s'.conn.mails; num_emails = s'.conn.num_emails };
      shared = record s.shared { next_index = s'.shared.next_index };
    }

  loaded-add_mail :
      (path dir : Bytes) (e : DirEntry) (s : State D)
      → FitsArray s.conn
      → s.conn.num_emails < max_emails
      → loaded (add_mail env path dir e s)
        ≡ loaded s ++ mails_of s.shared.disk path dir s.shared.next_index (e ∷ [])
  unfolding add_mail
  loaded-add_mail path dir e s f room =
      let next : s.conn.num_emails + 1 ≡ suc s.conn.num_emails = omega arith in
      rw next (take-set_self s.conn.num_emails s.conn.mails _ (omega arith))

  add_mail-FitsArray :
      (path dir : Bytes) (e : DirEntry) (s : State D)
      → FitsArray s.conn
      → s.conn.num_emails < max_emails
      → FitsArray (add_mail env path dir e s).conn
  unfolding add_mail
  add_mail-FitsArray path dir e s f room = record {
    cells = length-set s.conn.mails s.conn.num_emails _ ∙ f.cells;
    room = omega arith;
  }

  Loads-add_mail :
      (path dir : Bytes) (e : DirEntry) (es : List DirEntry) (s s' : State D)
      → e.is_regular ≡ true
      → FitsArray s.conn
      → s.conn.num_emails < max_emails
      → Loads path dir es (add_mail env path dir e s) s'
      → Loads path dir (e ∷ es) s s'
  unfolding add_mail
  Loads-add_mail path dir e es s s' r f room l =
      let left : max_emails - s.conn.num_emails ≡ suc (max_emails - (s.conn.num_emails + 1)) =
        omega arith in
      let rest =
        mails_of s.shared.disk path dir (s.shared.next_index + 1)
          (take (max_emails - (s.conn.num_emails + 1)) (regular es)) in
      record {
        fits = l.fits;
        counted = rw r (omega (arith, l.counted));
        mails_are =
            rw (r, left)
              (l.mails_are
                ∙ ap (λ x. x ++ rest) (loaded-add_mail path dir e s f room)
                ∙ append_assoc (loaded s) _ _);
        next_is = omega (arith, l.next_is, l.counted);
        frame = l.frame;
      }

  add_entries-skip :
      (path dir : Bytes) (e : DirEntry) (es : List DirEntry) (s : State D)
      → e.is_regular ≡ false
      → add_entries env path dir (e ∷ es) s ≡ add_entries env path dir es s
  unfolding add_entries
  add_entries-skip path dir e es s r = rw r refl

  add_entries-full :
      (path dir : Bytes) (e : DirEntry) (es : List DirEntry) (s : State D)
      → e.is_regular ≡ true
      → ltb s.conn.num_emails max_emails ≡ false
      → add_entries env path dir (e ∷ es) s ≡ s
  unfolding add_entries
  add_entries-full path dir e es s r full = rw (r, full) refl

  add_entries-add :
      (path dir : Bytes) (e : DirEntry) (es : List DirEntry) (s : State D)
      → e.is_regular ≡ true
      → ltb s.conn.num_emails max_emails ≡ true
      → add_entries env path dir (e ∷ es) s
        ≡ add_entries env path dir es (add_mail env path dir e s)
  unfolding add_entries
  add_entries-add path dir e es s r room = rw (r, room) refl

  -- Nothing is loaded when there is no regular file, or no room.
  Loads-nothing :
      (path dir : Bytes) (es : List DirEntry) (s : State D)
      → FitsArray s.conn
      → take (max_emails - s.conn.num_emails) (regular es) ≡ []
      → s.conn.num_emails ≡ min max_emails (s.conn.num_emails + length (regular es))
      → Loads path dir es s s
  Loads-nothing path dir es s f none_taken n = record {
    fits = f;
    counted = n;
    mails_are = rw none_taken (sym (append-nil (loaded s)));
    next_is = omega arith;
    frame = refl;
  }

  Loads-skip :
      (path dir : Bytes) (e : DirEntry) (es : List DirEntry) (s s' : State D)
      → e.is_regular ≡ false
      → Loads path dir es s s'
      → Loads path dir (e ∷ es) s s'
  Loads-skip path dir e es s s' r l = record {
    fits = l.fits;
    counted = rw r l.counted;
    mails_are = rw r l.mails_are;
    next_is = l.next_is;
    frame = l.frame;
  }

  add_entries-Loads :
      (path dir : Bytes) (es : List DirEntry) (s : State D)
      → FitsArray s.conn
      → Loads path dir es s (add_entries env path dir es s)
  add_entries-Loads path dir [] s f =
      unfold add_entries in Loads-nothing path dir [] s f (take-nil _) (omega arith)
  add_entries-Loads path dir (e ∷ es) s f = elim (Bool-cases e.is_regular) [
    | inr r ↦
        rw (add_entries-skip path dir e es s r)
          (Loads-skip path dir e es s _ r (add_entries-Loads path dir es s f))
    | inl r ↦ elim (Bool-cases (ltb s.conn.num_emails max_emails)) [
      | inl room ↦
          let free = ltb→lt s.conn.num_emails max_emails room in
          let next = add_mail env path dir e s in
          rw (add_entries-add path dir e es s r room) (
            Loads-add_mail path dir e es s _ r f free
              (add_entries-Loads path dir es next (add_mail-FitsArray path dir e s f free)))
      | inr full ↦
          let no_room : max_emails - s.conn.num_emails ≡ 0 = ground arith in
          rw (add_entries-full path dir e es s r full)
            (Loads-nothing path dir (e ∷ es) s f (rw no_room refl) (omega arith))
    ]
  ]

  directory-run :
      (user_path dir : Bytes) (s : State D) (listed : Option (List DirEntry))
      → env.list_dir s.shared.disk (snprintf max_path_length (joined user_path dir)) ≡ listed
      → retrieve_emails_from_directory env user_path dir s ≡ (elim listed [
        | none ↦ s
        | some entries ↦
            add_entries env (snprintf max_path_length (joined user_path dir)) dir entries s
      ])
  unfolding retrieve_emails_from_directory
  directory-run user_path dir s listed e =
      ap
        (λ o. elim o [
          | none ↦ s
          | some entries ↦
              add_entries env (snprintf max_path_length (joined user_path dir)) dir entries s
        ])
        e

  -- Loading a directory appends its regular files to the mails, in the order of `readdir`, each
  -- with its size, its name cut to 255 characters and the next number, until the array of 64 is
  -- full; a directory that cannot be opened adds nothing. The array is not overrun, and nothing else
  -- changes.
  pub retrieve_emails_from_directory-Loads :
      (user_path dir : Bytes) (s : State D)
      → FitsArray s.conn
      → Loads
          (snprintf max_path_length (joined user_path dir))
          dir
          (get_or_nil
            (env.list_dir s.shared.disk (snprintf max_path_length (joined user_path dir))))
          s
          (retrieve_emails_from_directory env user_path dir s)
  retrieve_emails_from_directory-Loads user_path dir s f =
      let path = snprintf max_path_length (joined user_path dir) in
      elim (Option-cases (env.list_dir s.shared.disk path)) [
        | inl e ↦
            rw (directory-run user_path dir s _ e, e)
              (Loads-nothing path dir [] s f (take-nil _) (omega arith))
        | inr (entries, e) ↦
            rw (directory-run user_path dir s _ e, e) (add_entries-Loads path dir entries s f)
      ]
