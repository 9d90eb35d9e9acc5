-- ===== src/Pop3/Retr/Paths.antt =====
-- The paths of mails that `retr_action` and `quit_action` of src/parser/pop3_parserADT.c build in
-- buffers of a computed length.
use pdc_pop3d.Prelude.{
  ℕ, ◌+◌, ◌≤◌, ◌<◌, ◌≡◌, ap, ◌↔◌, ◌∷◌, arith, length, take, length-take, length-append, take-all,
}
use pdc_pop3d.CString.{Bytes}
use pdc_pop3d.Global.{GlobalConfiguration}
use pdc_pop3d.Pop3.State.{Mail}
use pdc_pop3d.Pop3.Files.{joined}
use pdc_pop3d.Pop3.Retr.{full_path, retr_path}
use pdc_pop3d.Pop3.Quit.{quit_path}

take-fits_iff : (n : ℕ) (xs : Bytes) → (take n xs ≡ xs) ↔ (length xs ≤ n)
take-fits_iff n xs = (λ h. omega (arith, ap length h, length-take n xs), λ h. take-all n xs h)

length-joined : (a b : Bytes) → length (joined a b) ≡ length a + 1 + length b
length-joined a b = omega (arith, length-append a (b'/' ∷ b))

length-full_path :
    (conf : GlobalConfiguration) (username : Bytes) (m : Mail)
    → length (full_path conf username m)
      ≡ length conf.mailroot_folder
        + length username
        + length conf.maildir_folder
        + length m.folder
        + length m.filename
        + 4
length-full_path conf username m =
    let file = joined m.folder m.filename in
    let maildir = joined conf.maildir_folder file in
    omega (
      arith,
      length-joined conf.mailroot_folder (joined username maildir),
      length-joined username maildir,
      length-joined conf.maildir_folder file,
      length-joined m.folder m.filename,
    )

-- RETR opens the path of the mail exactly when the name of the mail root is shorter than that of
-- the mail directory; in all other cases the path is cut off.
pub retr_path_iff :
    (conf : GlobalConfiguration) (username : Bytes) (m : Mail)
    → (retr_path conf username m ≡ full_path conf username m)
      ↔ (length conf.mailroot_folder < length conf.maildir_folder)
unfolding retr_path
retr_path_iff conf username m =
    let (there, back) = take-fits_iff _ (full_path conf username m) in
    (
      λ h. omega (arith, there h, length-full_path conf username m),
      λ h. back (omega (arith, length-full_path conf username m)),
    )

-- QUIT deletes the file at the path of the mail exactly when the user's name is not empty; else
-- the path is cut off.
pub quit_path_iff :
    (conf : GlobalConfiguration) (username : Bytes) (m : Mail)
    → (quit_path conf username m ≡ full_path conf username m) ↔ (0 < length username)
unfolding quit_path
quit_path_iff conf username m =
    let (there, back) = take-fits_iff _ (full_path conf username m) in
    (
      λ h. omega (arith, there h, length-full_path conf username m),
      λ h. back (omega (arith, length-full_path conf username m)),
    )
