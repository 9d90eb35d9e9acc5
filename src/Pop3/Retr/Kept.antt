-- ===== src/Pop3/Retr/Kept.antt =====
-- RETR, src/parser/pop3_parserADT.c, keeps the array of mails and the read buffer.
use pdc_pop3d.Prelude.{
  ℕ, not, ◌||◌, Option, none, some, List, [], ◌∷◌, ◌++◌, ◌==◌, if◌then◌else◌, get_or, length, ℤ,
  pos, negsuc,
}
use pdc_pop3d.CString.{Bytes}
use pdc_pop3d.Numbers.{all_digits}
use pdc_pop3d.Step.Keeps.{Keeps, bind-Keeps, pure-Keeps, modify-Keeps, get-Keeps, if-Keeps}
use pdc_pop3d.Buffer.{Buffer}
use pdc_pop3d.Pop3.Reply
use pdc_pop3d.Pop3.State.{Mail, retrieved, State, Env, M, ◌>>◌, pure, send_n, send_data}
use pdc_pop3d.Pop3.State.Kept.{Sound, send_n-Keeps, reply-Keeps}
use pdc_pop3d.Pop3.Mail.{stuffed}
use pdc_pop3d.Pop3.Actions.{no_mail, mail_index, set_status, invalid_index}
use pdc_pop3d.Pop3.Actions.Kept.{guarded-Keeps, set_status-Keeps, invalid_index-Keeps}
use pdc_pop3d.Pop3.Retr.{
  concat, retr_path, retr_header, noise_message, send_each, child_output, transform_completion,
  plain_completion, retr_mail, retr_action,
}

module _ {D : Type 0} (env : Env D) (b : Buffer) where
  send_each-Keeps : (ms : List Bytes) → Keeps (Sound env b) (send_each env ms)
  unfolding send_each
  send_each-Keeps [] = pure-Keeps (Sound env b) tt
  send_each-Keeps (m ∷ ms) =
      bind-Keeps (Sound env b) (send_n env m) (λ _. send_each env ms) (send_n-Keeps env b m)
        (λ _. send_each-Keeps ms)

  child_output-Keeps : (out : Bytes) → Keeps (Sound env b) (child_output env out)
  unfolding child_output
  child_output-Keeps out =
      modify-Keeps (Sound env b)
        (λ s. record s { wire = record s.wire { sent = s.wire.sent ++ out } }) (λ s i. i)

  -- The end of a mail that was sent.
  abbrev ended : ℕ → M D ℤ
  ended i = set_status i retrieved >> (send_data env Reply.dot >> pure (pos 0))

  ended-Keeps : (i : ℕ) → Keeps (Sound env b) (ended i)
  ended-Keeps i =
      bind-Keeps (Sound env b) (set_status i retrieved) _ (set_status-Keeps env b i retrieved)
        (λ _. reply-Keeps env b Reply.dot (pos 0))

  abbrev transformed : ℕ → Option Bytes → M D ℤ
  transformed i o = elim o [ none ↦ pure (negsuc 0) | some out ↦ child_output env out >> ended i ]

  transformed-Keeps : (i : ℕ) (o : Option Bytes) → Keeps (Sound env b) (transformed i o)
  transformed-Keeps i none = pure-Keeps (Sound env b) (negsuc 0)
  transformed-Keeps i (some out) =
      bind-Keeps (Sound env b) (child_output env out) (λ _. ended i) (child_output-Keeps out)
        (λ _. ended-Keeps i)

  abbrev transform_file : ℕ → Bytes → Option Bytes → M D ℤ
  transform_file i script o = elim o [
    | none ↦ pure (negsuc 0)
    | some file ↦ transformed i (env.shell script (concat (stuffed file)))
  ]

  transform_file-Keeps :
      (i : ℕ) (script : Bytes) (o : Option Bytes) → Keeps (Sound env b) (transform_file i script o)
  transform_file-Keeps i script none = pure-Keeps (Sound env b) (negsuc 0)
  transform_file-Keeps i script (some file) =
      transformed-Keeps i (env.shell script (concat (stuffed file)))

  transform_completion-Keeps :
      (path : Bytes) (i : ℕ) → Keeps (Sound env b) (transform_completion env path i)
  unfolding transform_completion
  transform_completion-Keeps path i =
      get-Keeps (Sound env b)
        (λ s.
          transform_file i s.shared.conf.transformation_script (env.read_file s.shared.disk path))
        (λ s h.
          transform_file-Keeps i s.shared.conf.transformation_script
            (env.read_file s.shared.disk path))

  abbrev plain_file : ℕ → Mail → Option Bytes → M D ℤ
  plain_file i m o = elim o [
    | none ↦ pure (negsuc 0)
    | some file ↦ send_n env (retr_header m) >> (send_each env (stuffed file) >> ended i)
  ]

  plain_file-Keeps : (i : ℕ) (m : Mail) (o : Option Bytes) → Keeps (Sound env b) (plain_file i m o)
  plain_file-Keeps i m none = pure-Keeps (Sound env b) (negsuc 0)
  plain_file-Keeps i m (some file) =
      bind-Keeps (Sound env b) (send_n env (retr_header m)) _ (send_n-Keeps env b (retr_header m))
        (λ _.
          bind-Keeps (Sound env b) (send_each env (stuffed file)) (λ _. ended i)
            (send_each-Keeps (stuffed file)) (λ _. ended-Keeps i))

  plain_completion-Keeps :
      (path : Bytes) (i : ℕ) (m : Mail) → Keeps (Sound env b) (plain_completion env path i m)
  unfolding plain_completion
  plain_completion-Keeps path i m =
      get-Keeps (Sound env b) (λ s. plain_file i m (env.read_file s.shared.disk path))
        (λ s h. plain_file-Keeps i m (env.read_file s.shared.disk path))

  abbrev retr_found : ℕ → State D → M D ℤ
  retr_found i s =
      let m = get_or s.conn.mails i no_mail in
      let path = retr_path s.shared.conf s.conn.username m in
      if s.shared.conf.transformation
      then send_n env (retr_header m) >> transform_completion env path i
      else plain_completion env path i m

  retr_found-Keeps : (i : ℕ) (s : State D) → Keeps (Sound env b) (retr_found i s)
  retr_found-Keeps i s =
      let m = get_or s.conn.mails i no_mail in
      let path = retr_path s.shared.conf s.conn.username m in
      if-Keeps (Sound env b) s.shared.conf.transformation _ _
        (bind-Keeps (Sound env b) (send_n env (retr_header m))
          (λ _. transform_completion env path i) (send_n-Keeps env b (retr_header m))
          (λ _. transform_completion-Keeps path i))
        (plain_completion-Keeps path i m)

  retr_mail-Keeps : (i : ℕ) → Keeps (Sound env b) (retr_mail env i)
  unfolding retr_mail
  retr_mail-Keeps i = get-Keeps (Sound env b) (retr_found i) (λ s h. retr_found-Keeps i s)

  abbrev retr_index : Bytes → Option ℕ → M D ℤ
  retr_index argument o = elim o [
    | none ↦ invalid_index env
    | some i ↦
        if length argument == 0 || not (all_digits argument)
        then send_data env (noise_message argument) >> pure (pos 1)
        else retr_mail env i
  ]

  retr_index-Keeps : (argument : Bytes) (o : Option ℕ) → Keeps (Sound env b) (retr_index argument o)
  retr_index-Keeps argument none = invalid_index-Keeps env b
  retr_index-Keeps argument (some i) =
      if-Keeps (Sound env b) (length argument == 0 || not (all_digits argument)) _ _
        (reply-Keeps env b (noise_message argument) (pos 1)) (retr_mail-Keeps i)

  pub retr_action-Keeps : (argument : Bytes) → Keeps (Sound env b) (retr_action env argument)
  unfolding retr_action
  retr_action-Keeps argument =
      guarded-Keeps env b (λ s. retr_index argument (mail_index argument s.conn.num_emails))
        (λ s h. retr_index-Keeps argument (mail_index argument s.conn.num_emails))
