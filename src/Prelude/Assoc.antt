-- ===== src/Prelude/Assoc.antt =====
-- Go maps with string keys. The entries stand in the order of their first insertion; the order in
-- which Go ranges over a map is an argument of the code that does so.

use mathlib.Core.Path.{◌≡◌, refl, sym, ◌∙◌}
use mathlib.Core.Logic.{◌≢◌, ◌⊎◌, inl, inr}
use mathlib.Core.Bool.{true}
use mathlib.Core.Option.{Option, none, some}
use mathlib.Core.List.{List, [], ◌∷◌}
use native.Mathlib.Omega.{arith}
use kube_pet_node.Prelude.Lists.{All}
use kube_pet_node.Prelude.Tests.{if◌then◌else◌, Bool-cases, some-injective}
use kube_pet_node.Prelude.Text.{Text, text_eq, text_eq_iff}

abbrev pub Assoc {ℓ} : Type ℓ → Type ℓ
Assoc V = List (Text × V)

-- No item comes twice.
abbrev pub IsDistinct : List Text → Type 0
IsDistinct [] = Unit {0}
IsDistinct (k ∷ ks) = All (λ j. k ≢ j) ks × IsDistinct ks

module _ {ℓ} {V : Type ℓ} where
  -- `v, ok := m[k]`
  unfoldable pub lookup : Text → Assoc V → Option V
  lookup k [] = none
  lookup k ((j, v) ∷ m) = if text_eq j k then some v else lookup k m

  -- `m[k] = v`
  unfoldable pub insert : Text → V → Assoc V → Assoc V
  insert k v [] = (k, v) ∷ []
  insert k v ((j, w) ∷ m) = if text_eq j k then (k, v) ∷ m else (j, w) ∷ insert k v m

  -- `delete(m, k)`
  unfoldable pub delete : Text → Assoc V → Assoc V
  delete k [] = []
  delete k ((j, w) ∷ m) = let rest = delete k m in if text_eq j k then rest else (j, w) ∷ rest

  unfoldable pub keys : Assoc V → List Text
  keys [] = []
  keys ((j, w) ∷ m) = j ∷ keys m

  pub lookup-insert :
      (k j : Text) (v : V) (m : Assoc V)
      → lookup j (insert k v m) ≡ (if text_eq k j then some v else lookup j m)
  unfolding lookup insert
  lookup-insert k j v [] = refl
  lookup-insert k j v ((i, w) ∷ m) =
      ground (arith, text_eq_iff k j, text_eq_iff i k, text_eq_iff i j, lookup-insert k j v m)

  pub lookup-delete :
      (k j : Text) (m : Assoc V)
      → lookup j (delete k m) ≡ (if text_eq k j then none else lookup j m)
  unfolding lookup delete
  lookup-delete k j [] = ground arith
  lookup-delete k j ((i, w) ∷ m) =
      ground (arith, text_eq_iff k j, text_eq_iff i k, text_eq_iff i j, lookup-delete k j m)

  -- An entry after an insertion is the new one or was there.
  pub lookup-insert_cases :
      (k j : Text) (v w : V) (m : Assoc V)
      → lookup j (insert k v m) ≡ some w
      → ((k ≡ j) × (v ≡ w)) ⊎ (lookup j m ≡ some w)
  lookup-insert_cases k j v w m h =
      let now : (if text_eq k j then some v else lookup j m) ≡ some w =
        sym (lookup-insert k j v m) ∙ h in
      elim (Bool-cases (text_eq k j)) [
        | inl here ↦ inl ((text_eq_iff k j).0 here, some-injective (rw here at now))
        | inr there ↦ inr (rw there at now)
      ]

  -- An entry after a deletion was there, under another key.
  pub lookup-delete_cases :
      (k j : Text) (w : V) (m : Assoc V)
      → lookup j (delete k m) ≡ some w
      → (k ≢ j) × (lookup j m ≡ some w)
  lookup-delete_cases k j w m h =
      let now : (if text_eq k j then none else lookup j m) ≡ some w =
        sym (lookup-delete k j m) ∙ h in
      elim (Bool-cases (text_eq k j)) [
        | inl here ↦ let no : none ≡ some w = rw here at now in cc
        | inr there ↦ (
          λ same. let here : text_eq k j ≡ true = (text_eq_iff k j).1 same in cc,
          rw there at now,
        )
      ]

  -- A key that none of the entries has.
  pub lookup-absent : (k : Text) (m : Assoc V) → All (λ j. k ≢ j) (keys m) → lookup k m ≡ none
  unfolding lookup keys
  lookup-absent k [] h = refl
  lookup-absent k ((j, w) ∷ m) (ne, h) = elim (Bool-cases (text_eq j k)) [
    | inl same ↦ absurd (ne (sym ((text_eq_iff j k).0 same)))
    | inr other ↦ rw other (lookup-absent k m h)
  ]
