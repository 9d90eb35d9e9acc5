-- ===== src/Pop3/Retr.antt =====
-- RETR: `retr_action` and `transform_completion` of src/parser/pop3_parserADT.c.
pub mod Paths
pub mod Body
pub mod Output
pub mod Kept
use pdc_pop3d.Prelude.{
  ℕ, ◌+◌, Bool, true, false, not, ◌||◌, Option, none, some, List, [], ◌∷◌, ◌++◌, ◌==◌,
  if◌then◌else◌, get_or, length, ℤ, pos, negsuc,
}
use pdc_pop3d.CString.{Bytes, codes, crlf}
use pdc_pop3d.Numbers.{decimal, all_digits}
use pdc_pop3d.Global.{GlobalConfiguration}
use pdc_pop3d.Pop3.Reply
use pdc_pop3d.Pop3.State.{
  retrieved, Mail, Connection, State, Env, M, ◌>>=◌, ◌>>◌, pure, get, modify_conn, send_n,
  send_data,
}
use pdc_pop3d.Pop3.Files.{snprintf, joined}
use pdc_pop3d.Pop3.Mail.{stuffed}
use pdc_pop3d.Pop3.Actions.{
  max_response_length, is_authorization, no_mail, mail_index, set_status, forbidden, invalid_index,
}

-- mailroot/username/maildir/folder/filename
abbrev pub full_path : GlobalConfiguration → Bytes → Mail → Bytes
full_path conf username m =
    joined conf.mailroot_folder
      (joined username (joined conf.maildir_folder (joined m.folder m.filename)))

-- The path that `retr_action` opens. Its length counts `maildir_folder` twice and
-- `mailroot_folder` never.
unfoldable pub retr_path : GlobalConfiguration → Bytes → Mail → Bytes
retr_path conf username m =
    snprintf
      (length conf.maildir_folder
        + length conf.maildir_folder
        + length username
        + length m.folder
        + length m.filename
        + 4)
      (full_path conf username m)

-- "-ERR Noise after message number: %s\r\n"
unfoldable pub noise_message : Bytes → Bytes
noise_message argument =
    snprintf max_response_length (codes "-ERR Noise after message number: " ++ argument ++ crlf)

-- "+OK %zu octets\r\n"
unfoldable pub retr_header : Mail → Bytes
retr_header m = codes "+OK " ++ decimal m.octets ++ codes " octets" ++ crlf

abbrev pub concat : List Bytes → Bytes
concat [] = []
concat (m ∷ ms) = m ++ concat ms

module _ {D : Type 0} (env : Env D) where
  -- Messages one after another.
  unfoldable pub send_each : List Bytes → M D (Unit {0})
  send_each [] = pure tt
  send_each (m ∷ ms) = send_n env m >> send_each ms

  -- What the child process writes goes to the socket past the write buffer.
  unfoldable pub child_output : Bytes → M D (Unit {0})
  child_output out s = some (tt, record s { wire = record s.wire { sent = s.wire.sent ++ out } })

  -- The parent's part of `transform_completion`, with what the child made of its input.
  unfoldable pub transform_completion : Bytes → ℕ → M D ℤ
  transform_completion path i = do
    s ← get
    elim (env.read_file s.shared.disk path) [
      | none ↦ pure (negsuc 0)
      | some file ↦ elim (env.shell s.shared.conf.transformation_script (concat (stuffed file))) [
        | none ↦ pure (negsuc 0)
        | some out ↦ (do
          child_output out
          set_status i retrieved
          send_data env Reply.dot
          pure (pos 0))
      ]
    ]

  -- The branch of `retr_action` with no transformation.
  unfoldable pub plain_completion : Bytes → ℕ → Mail → M D ℤ
  plain_completion path i m = do
    s ← get
    elim (env.read_file s.shared.disk path) [
      | none ↦ pure (negsuc 0)
      | some file ↦ (do
        send_n env (retr_header m)
        send_each (stuffed file)
        set_status i retrieved
        send_data env Reply.dot
        pure (pos 0))
    ]

  -- What `retr_action` does for the mail at a valid index.
  unfoldable pub retr_mail : ℕ → M D ℤ
  retr_mail i = do
    s ← get
    let m = get_or s.conn.mails i no_mail
    let path = retr_path s.shared.conf s.conn.username m
    if s.shared.conf.transformation
        then (do send_n env (retr_header m); transform_completion path i)
        else plain_completion path i m

  unfoldable pub retr_action : Bytes → M D ℤ
  retr_action argument = do
    s ← get
    if is_authorization s.conn.status
        then forbidden env
        else elim (mail_index argument s.conn.num_emails) [
          | none ↦ invalid_index env
          | some i ↦
              if length argument == 0 || not (all_digits argument)
              then (do send_data env (noise_message argument); pure (pos 1))
              else retr_mail i
        ]
