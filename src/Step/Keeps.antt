-- ===== src/Step/Keeps.antt =====
-- What a step keeps, whatever it meets: if the predicate holds before, and the step returns, it
-- holds after.
use pdc_pop3d.Prelude.{Bool, true, false, if◌then◌else◌}
use pdc_pop3d.Step.{Step, ◌>>=◌, pure, get, modify}
use pdc_pop3d.Step.Post.{Post, pure-Post, modify-Post, bind-Post}

pub record Keeps {S A : Type 0} (I : S → Type 0) (m : Step S A) : Type 0 where
  pub kept : (s : S) → I s → Post m s (λ _. I)

module _ {S : Type 0} (I : S → Type 0) where
  pub bind-Keeps :
      {A B : Type 0} (m : Step S A) (f : A → Step S B)
      → Keeps I m
      → ((a : A) → Keeps I (f a))
      → Keeps I (m >>= f)
  bind-Keeps m f km kf = record {
    kept = λ s i. bind-Post (λ _. I) (λ _. I) m f s (km.kept s i) (λ a s' i'. (kf a).kept s' i');
  }

  pub pure-Keeps : {A : Type 0} (a : A) → Keeps I (pure a)
  pure-Keeps a = record { kept = λ s i. pure-Post (λ _. I) a s i }

  pub modify-Keeps : (f : S → S) → ((s : S) → I s → I (f s)) → Keeps I (modify f)
  modify-Keeps f k = record { kept = λ s i. modify-Post (λ _. I) f s (k s i) }

  -- A step that goes on from the state that it finds.
  pub get-Keeps :
      {B : Type 0} (f : S → Step S B) → ((s : S) → I s → Keeps I (f s)) → Keeps I (get >>= f)
  get-Keeps f k = record {
    kept = λ s i. record { holds = λ a s' h. ((k s i).kept s i).holds a s' h };
  }

  pub if-Keeps :
      {A : Type 0} (b : Bool) (m k : Step S A)
      → Keeps I m
      → Keeps I k
      → Keeps I (if b then m else k)
  if-Keeps true m k hm hk = hm
  if-Keeps false m k hm hk = hk
