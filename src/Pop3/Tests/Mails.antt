-- ===== src/Pop3/Tests/Mails.antt =====
-- Mails.
use pdc_pop3d.Prelude.{
  take, drop, ◌≡◌, ◌≢◌, ◌<◌, ◌↔◌, refl, true, false, none, some, [], ◌∷◌, ◌++◌, arith, length, ℕ,
}
use pdc_pop3d.CString.{Bytes, codes, crlf}
use pdc_pop3d.Pop3.Mail.{stuff_chunk, stuffed}
use pdc_pop3d.Pop3.Mail.Stuffing.{
  concat, IsCrlf, unstuff, unstuff-stuffed, at_start, ends_reply, ends_reply-stuffed,
  stuff_chunk-bare_line_feed,
}
use pdc_pop3d.Pop3.Files.{max_path_length, snprintf, joined, retrieve_emails_from_directory}
use pdc_pop3d.Pop3.Files.Loading.{Loads, get_or_nil, retrieve_emails_from_directory-Loads}
use pdc_pop3d.Pop3.Actions.Reactions.{Reacts}
use pdc_pop3d.Pop3.Retr.{full_path, retr_path, retr_mail}
use pdc_pop3d.Pop3.Retr.Output.{retr_reaction, retr_mail-Reacts}
use pdc_pop3d.Pop3.Retr.Paths.{retr_path_iff, quit_path_iff}
use pdc_pop3d.Pop3.Quit.{quit_path, quit_mails}
use pdc_pop3d.Pop3.Quit.Removal.{without_files, quit_mails-without_files}
use pdc_pop3d.Pop3.State.{State, deleted, retrieved}
use pdc_pop3d.Pop3.Tests.{env, conf, mail, client, state, state-Ready, client-FitsArray}

abbrev dots : Bytes
dots = codes "." ++ crlf ++ codes "..a" ++ crlf

dots-IsCrlf : IsCrlf none dots
dots-IsCrlf = grind arith

unstuff-stuffed_example : unstuff true (concat (stuffed dots)) ≡ dots
unstuff-stuffed_example = unstuff-stuffed dots dots-IsCrlf (omega arith)

ends_reply-stuffed_example : ends_reply at_start (concat (stuffed dots)) ≡ false
ends_reply-stuffed_example = ends_reply-stuffed dots dots-IsCrlf (omega arith)

a_not_return : ◌≢◌ {A = ℕ} 97 13
a_not_return h = absurd (omega arith)

bare_line_feed_example :
    concat (stuff_chunk none (codes "b" ++ 97 ∷ 10 ∷ codes "c"))
    ≡ concat (stuff_chunk none (codes "b" ++ 97 ∷ []))
      ++ 10 ∷ 13 ∷ concat (stuff_chunk (some 10) (codes "c"))
bare_line_feed_example = stuff_chunk-bare_line_feed none (codes "b") (codes "c") 97 a_not_return

retrieve_emails_from_directory_example :
    Loads env
      (snprintf max_path_length (joined (codes "mail") (codes "new")))
      (codes "new")
      (get_or_nil (
        env.list_dir state.shared.disk
          (snprintf max_path_length (joined (codes "mail") (codes "new")))))
      state
      (retrieve_emails_from_directory env (codes "mail") (codes "new") state)
retrieve_emails_from_directory_example =
    retrieve_emails_from_directory-Loads env (codes "mail") (codes "new") state client-FitsArray

retr_mail_example :
    Reacts env (retr_mail env 0) state (retr_reaction env 0 (codes ".Hi" ++ crlf) state)
retr_mail_example =
    retr_mail-Reacts env 0 (codes ".Hi" ++ crlf) state state-Ready (omega arith) refl refl

retr_path_example :
    (retr_path conf (codes "joe") mail ≡ full_path conf (codes "joe") mail)
    ↔ (length conf.mailroot_folder < length conf.maildir_folder)
retr_path_example = retr_path_iff conf (codes "joe") mail

quit_path_example :
    (quit_path conf (codes "joe") mail ≡ full_path conf (codes "joe") mail)
    ↔ (0 < length (codes "joe"))
quit_path_example = quit_path_iff conf (codes "joe") mail

-- The mail is marked as deleted.
abbrev marked : State (Unit {0})
marked = record state {
  conn = record client { mails = record mail { status = deleted } ∷ []; num_emails = 1 };
}

deleted_not_retrieved : deleted ≢ retrieved
deleted_not_retrieved h = cc

quit_mails_example :
    (s' : State (Unit {0})) × (quit_mails env 1 0 marked ≡ some (true, s'))
    × (s'.shared.disk
        ≡ without_files env conf client.username
            (take 1 (drop 0 marked.conn.mails))
            marked.shared.disk)
    × (s'.wire ≡ marked.wire)
    × (s'.conn.num_emails ≡ marked.conn.num_emails)
    × (s'.shared.conf ≡ marked.shared.conf)
quit_mails_example =
    quit_mails-without_files env 1 0 marked (omega arith) (omega arith) (deleted_not_retrieved, tt)
