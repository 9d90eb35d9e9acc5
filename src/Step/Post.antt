-- ===== src/Step/Post.antt =====
-- What a step makes true, whatever it meets: of the result and the state that it returns, if it
-- returns at all.
use pdc_pop3d.Prelude.{
  ◌≡◌, sym, ap, ◌∙◌, subst, Bool, false, Option, none, some, inl, inr, Option-cases, if◌then◌else◌,
}
use pdc_pop3d.Step.{Step, ◌>>=◌, pure, get, modify, bind_run}

none-some : {A : Type 0} {x : A} → none ≡ some x → ⊥
none-some h = cc

abbrev returned : {S A : Type 0} → A × S → Option (A × S) → A × S
returned x none = x
returned x (some y) = y

module _ {S : Type 0} where
  pub record Post {A : Type 0} (m : Step S A) (s : S) (Q : A → S → Type 0) : Type 0 where
    pub holds : (a : A) (s' : S) → m s ≡ some (a, s') → Q a s'

  pub pure-Post : {A : Type 0} (Q : A → S → Type 0) (a : A) (s : S) → Q a s → Post (pure a) s Q
  pure-Post Q a s q = record { holds = λ b s' h. subst (λ x. Q x.0 x.1) (ap (returned (a, s)) h) q }

  pub modify-Post :
      (Q : Unit {0} → S → Type 0) (f : S → S) (s : S) → Q tt (f s) → Post (modify f) s Q
  modify-Post Q f s q = record {
    holds = λ b s' h. subst (λ x. Q x.0 x.1) (ap (returned (tt, s)) h) q;
  }

  pub bind_none :
      {A B : Type 0} (m : Step S A) (f : A → Step S B) (s : S) → m s ≡ none → (m >>= f) s ≡ none
  bind_none m f s e = rw (e, ◌>>=◌)

  pub bind-Post :
      {A B : Type 0} (R : A → S → Type 0) (Q : B → S → Type 0) (m : Step S A) (f : A → Step S B)
      (s : S)
      → Post m s R
      → ((a : A) (s' : S) → R a s' → Post (f a) s' Q)
      → Post (m >>= f) s Q
  bind-Post R Q m f s p g = record {
    holds = λ b s' h. elim (Option-cases (m s)) [
      | inl e ↦ absurd (none-some (sym (bind_none m f s e) ∙ h))
      | inr ((a, s1), e) ↦ (g a s1 (p.holds a s1 e)).holds b s' (sym (bind_run m f e) ∙ h)
    ];
  }

  -- What holds of all that it may return follows from what it makes true.
  pub weaken-Post :
      {A : Type 0} (R Q : A → S → Type 0) (m : Step S A) (s : S)
      → Post m s R
      → ((a : A) (s' : S) → R a s' → Q a s')
      → Post m s Q
  weaken-Post R Q m s p g = record { holds = λ a s' h. g a s' (p.holds a s' h) }

  -- What holds in any case.
  pub any-Post :
      {A : Type 0} (Q : A → S → Type 0) (m : Step S A) (s : S)
      → ((a : A) (s' : S) → Q a s')
      → Post m s Q
  any-Post Q m s q = record { holds = λ a s' h. q a s' }

  -- A step that goes on from the state that it finds.
  pub get-Post :
      {A : Type 0} (Q : A → S → Type 0) (f : S → Step S A) (s : S)
      → Post (f s) s Q
      → Post (get >>= f) s Q
  get-Post Q f s p = record { holds = λ a s' h. p.holds a s' h }

  -- A step that runs only under a test.
  pub unless-Post :
      {A : Type 0} (Q : A → S → Type 0) (b : Bool) (m k : Step S A) (s : S)
      → b ≡ false
      → Post k s Q
      → Post (if b then m else k) s Q
  unless-Post Q b m k s e p = rw e p

  -- A step that runs as another does from some state, and one that does not return.
  pub same-Post :
      {A : Type 0} (Q : A → S → Type 0) (m k : Step S A) (s s' : S)
      → m s ≡ k s'
      → Post k s' Q
      → Post m s Q
  same-Post Q m k s s' e p = record { holds = λ a t h. p.holds a t (sym e ∙ h) }

  pub none-Post : {A : Type 0} (Q : A → S → Type 0) (m : Step S A) (s : S) → m s ≡ none → Post m s Q
  none-Post Q m s e = record { holds = λ a s' h. absurd (none-some (sym e ∙ h)) }
