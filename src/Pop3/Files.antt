-- ===== src/Pop3/Files.antt =====
-- The mail directories: src/pop3_functions.c.
pub mod Loading
use pdc_pop3d.Prelude.{
  ℕ, ◌+◌, ◌-◌, Bool, true, false, not, ◌&&◌, Option, none, some, List, [], ◌∷◌, ◌++◌, ltb, ◌==◌,
  if◌then◌else◌, set, take,
}
use pdc_pop3d.CString.{Bytes, codes}
use pdc_pop3d.Pop3.State.{Mail, unchanged, Connection, Shared, State, DirEntry, Env}

abbrev pub max_path_length : ℕ
max_path_length = 256

abbrev pub max_filename_length : ℕ
max_filename_length = 256

abbrev pub max_emails : ℕ
max_emails = 64

abbrev pub mail_folder_length : ℕ
mail_folder_length = 4

-- The string that `snprintf` leaves in a buffer of `n` characters.
abbrev pub snprintf : ℕ → Bytes → Bytes
snprintf n text = take (n - 1) text

-- "%s/%s"
abbrev pub joined : Bytes → Bytes → Bytes
joined a b = a ++ b'/' ∷ b

module _ {D : Type 0} (env : Env D) where
  unfoldable pub get_file_size : D → Bytes → Bytes → ℕ
  get_file_size d dir_path file_name =
      elim (env.file_size d (snprintf max_path_length (joined dir_path file_name))) [
        | none ↦ 0
        | some n ↦ n
      ]

  -- The body of the loop over a directory for a regular file when there is room.
  unfoldable pub add_mail : Bytes → Bytes → DirEntry → State D → State D
  unfolding get_file_size
  add_mail dir_path dir_name e s =
      let mail : Mail = record {
        index = s.shared.next_index + 1;
        octets = get_file_size s.shared.disk dir_path e.d_name;
        filename = snprintf max_filename_length e.d_name;
        folder = snprintf mail_folder_length dir_name;
        status = unchanged;
      } in
      record s {
        conn = record s.conn {
          mails = set s.conn.mails s.conn.num_emails mail;
          num_emails = s.conn.num_emails + 1;
        };
        shared = record s.shared { next_index = s.shared.next_index + 1 };
      }

  -- The loop over the entries, which stops at the first regular file that finds no room.
  unfoldable pub add_entries : Bytes → Bytes → List DirEntry → State D → State D
  add_entries dir_path dir_name [] s = s
  add_entries dir_path dir_name (e ∷ es) s =
      let room = ltb s.conn.num_emails max_emails in
      let next = if e.is_regular then add_mail dir_path dir_name e s else s in
      let rest = add_entries dir_path dir_name es next in
      if e.is_regular && not room then s else rest

  unfoldable pub retrieve_emails_from_directory : Bytes → Bytes → State D → State D
  unfolding add_entries
  retrieve_emails_from_directory user_path dir_name s =
      let dir_path = snprintf max_path_length (joined user_path dir_name) in
      elim (env.list_dir s.shared.disk dir_path) [
        | none ↦ s
        | some entries ↦ add_entries dir_path dir_name entries s
      ]

  unfoldable pub retrieve_emails : Bytes → State D → State D
  unfolding retrieve_emails_from_directory
  retrieve_emails user_path s =
      retrieve_emails_from_directory user_path (codes "new")
        (retrieve_emails_from_directory user_path (codes "cur") s)

  -- Whether it succeeded, and the disk afterwards.
  unfoldable pub delete_file : Bytes → D → Bool × D
  delete_file file_path d = if env.access d file_path then env.remove d file_path else (false, d)

  -- What stands behind the last '/', or all; `best` is what stands behind the last one so far.
  unfoldable pub behind_slash : Bytes → Bytes → Bytes
  behind_slash best [] = best
  behind_slash best (c ∷ s) = behind_slash (if c == b'/' then s else best) s

  rename_into : Bytes → Bytes → D → Bool × D
  rename_into source_path dest_path d =
      let filename = behind_slash source_path source_path in
      env.rename d source_path (snprintf max_path_length (joined dest_path filename))

  unfoldable pub move_file : Bytes → Bytes → D → Bool × D
  unfolding rename_into
  move_file source_path dest_path d =
      if not (env.access d source_path)
      then (false, d)
      else if env.access d dest_path
      then rename_into source_path dest_path d
      else let (made, d') = env.mkdir d dest_path in
        if made then rename_into source_path dest_path d' else (false, d')

  unfoldable pub move_file_new_to_cur : Bytes → Bytes → D → Bool × D
  unfolding move_file
  move_file_new_to_cur base_dir filename d =
      move_file (snprintf max_path_length (joined base_dir (joined (codes "new") filename)))
        (snprintf max_path_length (joined base_dir (codes "cur"))) d
