-- ===== src/Pop3/Actions/Marks.antt =====
-- The marks on mails: `mails[i].status = ...` of src/parser/pop3_parserADT.c within the array.
use pdc_pop3d.Prelude.{
  ℕ, zero, suc, ◌<◌, ◌≡◌, refl, ap, some, List, [], ◌∷◌, length, get_or, set, lt→ltb,
}
use pdc_pop3d.Pop3.State.{MailStatus, Mail, State}
use pdc_pop3d.Pop3.Actions.{no_mail, set_status}

-- The mails with the status of the one at the index replaced.
abbrev pub mark : ℕ → MailStatus → List Mail → List Mail
mark i status [] = []
mark zero status (m ∷ ms) = record m { status = status } ∷ ms
mark (suc i) status (m ∷ ms) = m ∷ mark i status ms

set-mark :
    (i : ℕ) (status : MailStatus) (ms : List Mail)
    → set ms i (record (get_or ms i no_mail) { status = status }) ≡ mark i status ms
set-mark i status [] = refl
set-mark zero status (m ∷ ms) = refl
set-mark (suc i) status (m ∷ ms) = ap (◌∷◌ m) (set-mark i status ms)

pub length-mark :
    (i : ℕ) (status : MailStatus) (ms : List Mail) → length (mark i status ms) ≡ length ms
length-mark i status [] = refl
length-mark zero status (m ∷ ms) = refl
length-mark (suc i) status (m ∷ ms) = ap suc (length-mark i status ms)

module _ {D : Type 0} where
  abbrev pub marked : ℕ → MailStatus → State D → State D
  marked i status s = record s { conn = record s.conn { mails = mark i status s.conn.mails } }

  -- A mark within the array.
  pub set_status-run :
      (i : ℕ) (status : MailStatus) (s : State D)
      → i < length s.conn.mails
      → set_status i status s ≡ some (tt, marked i status s)
  unfolding set_status
  set_status-run i status s h =
      rw (lt→ltb i (length s.conn.mails) h, set-mark i status s.conn.mails) refl
