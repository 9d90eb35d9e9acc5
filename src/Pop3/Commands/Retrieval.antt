-- ===== src/Pop3/Commands/Retrieval.antt =====
-- The line of a RETR, from the bytes that `parse_input` of src/parser/pop3_parserADT.c is given to
-- the mail on the wire.
use pdc_pop3d.Prelude.{
  ℕ, ◌+◌, ◌<◌, ◌≡◌, refl, ap, ◌∙◌, true, false, some, ◌∷◌, ◌++◌, arith, length, get_or, ◌==◌,
}
use pdc_pop3d.CString.{Bytes, codes}
use pdc_pop3d.Numbers.{decimal, all_digits}
use pdc_pop3d.Numbers.RoundTrip.{all_digits-decimal}
use pdc_pop3d.Text.Compare.{folded}
use pdc_pop3d.Pop3.State.{transaction, State, Env}
use pdc_pop3d.Pop3.State.Send.{Ready}
use pdc_pop3d.Pop3.Files.Loading.{FitsArray}
use pdc_pop3d.Pop3.Automaton.Grammar.{IsLine}
use pdc_pop3d.Pop3.Actions.{is_authorization, no_mail, mail_index}
use pdc_pop3d.Pop3.Actions.Index.{mail_index-decimal_iff}
use pdc_pop3d.Pop3.Actions.Marks.{marked}
use pdc_pop3d.Pop3.State.{retrieved}
use pdc_pop3d.Pop3.Retr.{retr_mail, retr_action}
use pdc_pop3d.Pop3.Retr.Paths.{retr_path_iff}
use pdc_pop3d.Pop3.Retr.Output.{retr_reaction, retr_mail-Reacts}
use pdc_pop3d.Pop3.Commands.{retr, name, accept_arguments, action}
use pdc_pop3d.Pop3.Commands.Input.{line_of, with_parser, with_parser-Ready, without-with_parser}
use pdc_pop3d.Pop3.Commands.Refusals.{argument-strlen, has_argument_lem}
use pdc_pop3d.Pop3.Commands.Lines.{Answers, answers}

module _ {D : Type 0} (env : Env D) where
  retr_action-run :
      (a : Bytes) (i : ℕ) (s : State D)
      → s.conn.status ≡ transaction
      → mail_index a s.conn.num_emails ≡ some i
      → 0 < length a
      → all_digits a ≡ true
      → retr_action env a s ≡ retr_mail env i s
  unfolding retr_action
  retr_action-run a i s t m l d =
      let in_session : is_authorization s.conn.status ≡ false = ap is_authorization t in
      let given : (length a == 0) ≡ false = ground arith in rw (in_session, m, given, d) refl

  -- The line of a RETR, in any case of letters, with the number of a mail in decimal digits, of a
  -- client who has logged in, with no transformation set: the file of that mail, counted from 1, is
  -- looked for under the mail root, the user, the mail directory and the mail's folder, and the
  -- reply is the header with the size, the bytes of the file as they stand on the wire, and the
  -- final dot on a line of its own; the mail is then marked as retrieved. Nothing else changes but
  -- the count of bytes, the number of `send` calls and the cells of the write buffer. The file can
  -- be read, the name of the mail root is shorter than that of the mail directory, the mails that
  -- are counted lie in their array, the peer is taken to go on reading, and memory for the parser
  -- to be had.
  pub parse_input-retr :
      (input w file : Bytes) (i : ℕ) (s : State D)
      → Ready env s
      → env.calloc s.shared.parsers ≡ (true, true)
      → IsLine (line_of input) w (decimal (i + 1))
      → folded 4 w ≡ folded 4 (codes "RETR")
      → FitsArray s.conn
      → s.conn.status ≡ transaction
      → i < s.conn.num_emails
      → s.shared.conf.transformation ≡ false
      → length s.shared.conf.mailroot_folder < length s.shared.conf.maildir_folder
      → (let c = s.shared.conf in
          let m = get_or s.conn.mails i no_mail in
          env.read_file s.shared.disk (
            c.mailroot_folder
            ++ b'/'
              ∷ (s.conn.username
                  ++ b'/' ∷ (c.maildir_folder ++ b'/' ∷ (m.folder ++ b'/' ∷ m.filename)))))
        ≡ some file
      → Answers env input s (retr_reaction env i file s)
  unfolding accept_arguments action name
  parse_input-retr input w file i s r h l f fits t n plain short e =
      let a = decimal (i + 1) in
      let m = get_or s.conn.mails i no_mail in
      let (digits, some_digit) = all_digits-decimal (i + 1) in
      let given = has_argument_lem a (argument-strlen (line_of input) w a l) some_digit in
      let index = (mail_index-decimal_iff i s.conn.num_emails (omega (arith, n, fits.room))).1 n in
      let path = (retr_path_iff s.shared.conf s.conn.username m).1 short in
      let found = ap (env.read_file s.shared.disk) path ∙ e in
      let (s', run, sent) =
        retr_mail-Reacts env i file (with_parser s) (with_parser-Ready env s r)
          (omega (arith, n, fits.room, fits.cells)) plain found in
      answers env input w a retr s (retr_reaction env i file s)
        (retr_reaction env i file (with_parser s)) h l (λ k. cc) f given
        (s', retr_action-run a i (with_parser s) t index some_digit digits ∙ run, sent)
        (refl, without-with_parser (marked i retrieved s))
