-- ===== src/Pop3/Actions/Index.antt =====
-- The number of a mail in an argument: LIST prints it, DELE and RETR read it
-- (src/parser/pop3_parserADT.c).
use pdc_pop3d.Prelude.{
  ℕ, ◌+◌, ◌-◌, ◌^◌, ◌<◌, ◌≡◌, refl, ap, ◌↔◌, Bool, true, false, none, some, arith, leb,
  if◌then◌else◌, ◌==◌, pos, negsuc,
}
use pdc_pop3d.CString.{Bytes}
use pdc_pop3d.Numbers.{decimal, atoi}
use pdc_pop3d.Numbers.RoundTrip.{atoi-decimal}
use pdc_pop3d.Pop3.Actions.{mail_index}

mail_index-read :
    (argument : Bytes) (k num_emails : ℕ)
    → atoi argument ≡ pos k
    → mail_index argument num_emails
      ≡ (if k == 0 then none else if leb num_emails (k - 1) then none else some (k - 1))
unfolding mail_index
mail_index-read argument k num_emails e =
    ap
      (λ z. elim z [
        | pos n ↦ if n == 0 then none else if leb num_emails (n - 1) then none else some (n - 1)
        | negsuc n ↦ none
      ])
      e

-- The number that LIST prints for the mail at an index is read back as that index exactly when
-- there is such a mail, for indices that an `int` can count.
pub mail_index-decimal_iff :
    (i num_emails : ℕ)
    → i + 1 < 2 ^ 31
    → (mail_index (decimal (i + 1)) num_emails ≡ some i) ↔ (i < num_emails)
mail_index-decimal_iff i num_emails h =
    let positive : (i + 1 == 0) ≡ false = ground arith in
    let index : i + 1 - 1 ≡ i = omega arith in
    rw
      (
        mail_index-read (decimal (i + 1)) (i + 1) num_emails (atoi-decimal (i + 1) h),
        positive,
        index,
      )
      (go (leb num_emails i) refl)
  where
    go :
        (b : Bool)
        → leb num_emails i ≡ b
        → ((if b then none else some i) ≡ some i) ↔ (i < num_emails)
    go true e = (λ k. absurd cc, λ k. ground arith)
    go false e = (λ k. ground arith, λ k. refl)
