-- ===== src/Prelude/Run.antt =====
-- Handlers with a state: a call changes the state, and returns, fails with an error, or panics.
use kube_pet_node.Prelude.{◌≡◌, Option, none, some}
use kube_pet_node.Prelude.Text.{Text}
use kube_pet_node.Prelude.Result.{Result, ok, err}

pub data Outcome {ℓ} (A : Type ℓ) : Type ℓ where
  returned : A → Outcome A
  failed : Text → Outcome A
  panicked : Outcome A

abbrev pub Run : Type 0 → Type 0 → Type 0
Run S A = S → S × Outcome A

unfoldable pub bind_outcome : {S A B : Type 0} → (A → Run S B) → S × Outcome A → S × Outcome B
bind_outcome f (s, Outcome.returned a) = f a s
bind_outcome f (s, Outcome.failed e) = (s, Outcome.failed e)
bind_outcome f (s, Outcome.panicked) = (s, Outcome.panicked)

infixl 5 ◌>>=◌ ◌>>◌
unfoldable pub ◌>>=◌ : {S A B : Type 0} → Run S A → (A → Run S B) → Run S B
unfolding bind_outcome
◌>>=◌ m f s = bind_outcome f (m s)

abbrev pub ◌>>◌ : {S A B : Type 0} → Run S A → Run S B → Run S B
m >> k = m >>= λ _. k

abbrev pub give : {S A : Type 0} → A → Run S A
give a s = (s, Outcome.returned a)

abbrev pub fail : {S A : Type 0} → Text → Run S A
fail e s = (s, Outcome.failed e)

abbrev pub outcome_of : {A : Type 0} → Result A → Outcome A
outcome_of (ok a) = Outcome.returned a
outcome_of (err e) = Outcome.failed e

-- The error of a call, returned by the caller.
abbrev pub answer : {S A : Type 0} → Result A → Run S A
answer r s = (s, outcome_of r)

-- A nil pointer that is used.
abbrev pub unless_nil : {S A : Type 0} → Option A → Run S A
unless_nil none s = (s, Outcome.panicked)
unless_nil (some a) s = (s, Outcome.returned a)

-- The calls behind one that may fail, without a state.
abbrev pub then_do : {A B : Type 0} → Outcome A → (A → Outcome B) → Outcome B
then_do (Outcome.returned a) f = f a
then_do (Outcome.failed e) f = Outcome.failed e
then_do Outcome.panicked f = Outcome.panicked

pub then_do-cases :
    {A B : Type 0} (o : Outcome A) (f : A → Outcome B) (b : B)
    → then_do o f ≡ Outcome.returned b
    → (a : A) × (f a ≡ Outcome.returned b)
then_do-cases (Outcome.returned a) f b e = (a, e)
then_do-cases (Outcome.failed m) f b e = cc
then_do-cases Outcome.panicked f b e = cc
