-- ===== src/Step.antt =====
-- Code that works on a state `S`: a step returns a result and the state that it leaves, or `none`
-- where an assertion of the code fails, or where it writes outside an array of mails.
pub mod Keeps
pub mod Post
use pdc_pop3d.Prelude.{◌≡◌, refl, ap, inl, inr, Option-cases, Option, none, some}

abbrev pub Step : Type 0 → Type 0 → Type 0
Step S A = S → Option (A × S)

infixl 5 ◌>>=◌ ◌>>◌
abbrev pub ◌>>=◌ : {S A B : Type 0} → Step S A → (A → Step S B) → Step S B
◌>>=◌ m f s = elim (m s) [ none ↦ none | some (a, s') ↦ f a s' ]

abbrev pub ◌>>◌ : {S B : Type 0} → Step S (Unit {0}) → Step S B → Step S B
m >> k = m >>= λ _. k

abbrev pub pure : {S A : Type 0} → A → Step S A
pure a s = some (a, s)

abbrev pub get : {S : Type 0} → Step S S
get s = some (s, s)

abbrev pub modify : {S : Type 0} → (S → S) → Step S (Unit {0})
modify f s = some (tt, f s)

-- A step that succeeds hands its result and state on.
pub bind_run :
    {S A B : Type 0} (m : Step S A) (f : A → Step S B) {s s' : S} {a : A}
    → m s ≡ some (a, s')
    → (m >>= f) s ≡ f a s'
bind_run m f e = rw (e, ◌>>=◌)

pub then_run :
    {S B : Type 0} (m : Step S (Unit {0})) (k : Step S B) {s s' : S}
    → m s ≡ some (tt, s')
    → (m >> k) s ≡ k s'
then_run m k e = bind_run m (λ _. k) e

-- What follows a step depends only on what it gives.
pub bind_same :
    {S A B : Type 0} (m m' : Step S A) (f : A → Step S B) (s s' : S)
    → m s ≡ m' s'
    → (m >>= f) s ≡ (m' >>= f) s'
bind_same m m' f s s' e = ap (λ o. elim o [ none ↦ none | some (a, t) ↦ f a t ]) e

pub bind_assoc :
    {S A B C : Type 0} (m : Step S A) (f : A → Step S B) (g : B → Step S C) (s : S)
    → ((m >>= f) >>= g) s ≡ (m >>= λ a. f a >>= g) s
bind_assoc m f g s = elim (Option-cases (m s)) [
  | inl e ↦ rw (e, ◌>>=◌) refl
  | inr (x, e) ↦ rw (e, ◌>>=◌) refl
]
