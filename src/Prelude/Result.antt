-- ===== src/Prelude/Result.antt =====
-- Errors as values: `(value, err)` results of the Go code.
use kube_pet_node.Prelude.{Bool, true, false, if◌then◌else◌, ◌≡◌, refl}
use kube_pet_node.Prelude.Text.{Text}

pub data Result {ℓ} (A : Type ℓ) : Type ℓ where
  ok : A → Result A
  err : Text → Result A

-- The result of a guarded step shows that the guard held.
pub if-ok {ℓ} :
    {A : Type ℓ} (b : Bool) (r : Result A) (e : Text) (v : A)
    → (if b then r else err e) ≡ ok v
    → (b ≡ true) × (r ≡ ok v)
if-ok true r e v h = (refl, h)
if-ok false r e v h = cc
