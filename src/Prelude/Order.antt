-- ===== src/Prelude/Order.antt =====
-- The byte-wise order of Go strings, and sorting by a key (`sort.Sort`, `sort.Strings`), which
-- forgets the order of its input where the key tells the items apart.

use mathlib.Core.Path.{◌≡◌, refl, ap, ◌∙◌}
use mathlib.Core.Logic.{◌⊎◌, inl, inr}
use mathlib.Core.Bool.{Bool, true, false}
use mathlib.Core.List.{List, [], ◌∷◌, Memᴰ, Permᴰ}
use mathlib.Core.List.Permᴰ
use native.Mathlib.Omega.{arith}
use kube_pet_node.Prelude.Tests.{ltb, if◌then◌else◌, Bool-cases}
use kube_pet_node.Prelude.Text.{Text}

-- `s < t` on strings.
unfoldable pub text_ltb : Text → Text → Bool
text_ltb [] [] = false
text_ltb [] (y ∷ ys) = true
text_ltb (x ∷ xs) [] = false
text_ltb (x ∷ xs) (y ∷ ys) = if ltb x y then true else if ltb y x then false else text_ltb xs ys

pub text_ltb_asymm : (s t : Text) → text_ltb s t ≡ true → text_ltb t s ≡ false
unfolding text_ltb
text_ltb_asymm [] [] h = ground arith
text_ltb_asymm [] (y ∷ ys) h = refl
text_ltb_asymm (x ∷ xs) [] h = ground arith
text_ltb_asymm (x ∷ xs) (y ∷ ys) h = ground (arith, text_ltb_asymm xs ys)

pub text_ltb_antisymm : (s t : Text) → text_ltb s t ≡ false → text_ltb t s ≡ false → s ≡ t
unfolding text_ltb
text_ltb_antisymm [] [] h k = refl
text_ltb_antisymm [] (y ∷ ys) h k = ground arith
text_ltb_antisymm (x ∷ xs) [] h k = ground arith
text_ltb_antisymm (x ∷ xs) (y ∷ ys) h k = ground (arith, text_ltb_antisymm xs ys)

-- Not being below is transitive.
pub text_ltb_trans_false :
    (r s t : Text) → text_ltb s r ≡ false → text_ltb t s ≡ false → text_ltb t r ≡ false
unfolding text_ltb
text_ltb_trans_false [] [] [] h k = refl
text_ltb_trans_false [] [] (z ∷ zs) h k = refl
text_ltb_trans_false [] (y ∷ ys) [] h k = ground arith
text_ltb_trans_false [] (y ∷ ys) (z ∷ zs) h k = refl
text_ltb_trans_false (x ∷ xs) [] t h k = ground arith
text_ltb_trans_false (x ∷ xs) (y ∷ ys) [] h k = ground arith
text_ltb_trans_false (x ∷ xs) (y ∷ ys) (z ∷ zs) h k = ground (arith, text_ltb_trans_false xs ys zs)

pub Memᴰ-perm {ℓ} : {A : Type ℓ} {a : A} {l₁ l₂ : List A} → Permᴰ l₁ l₂ → Memᴰ a l₁ → Memᴰ a l₂
Memᴰ-perm Permᴰ.nil m = m
Memᴰ-perm (Permᴰ.cons e d) (Memᴰ.head h) = Memᴰ.head (h ∙ e)
Memᴰ-perm (Permᴰ.cons e d) (Memᴰ.tail m) = Memᴰ.tail (Memᴰ-perm d m)
Memᴰ-perm (Permᴰ.swap e f) (Memᴰ.head h) = Memᴰ.tail (Memᴰ.head (h ∙ e))
Memᴰ-perm (Permᴰ.swap e f) (Memᴰ.tail (Memᴰ.head h)) = Memᴰ.head (h ∙ f)
Memᴰ-perm (Permᴰ.swap e f) (Memᴰ.tail (Memᴰ.tail m)) = Memᴰ.tail (Memᴰ.tail m)
Memᴰ-perm (Permᴰ.trans d₁ d₂) m = Memᴰ-perm d₂ (Memᴰ-perm d₁ m)

module _ {ℓ} {A : Type ℓ} (key : A → Text) where
  unfoldable pub insert_by : A → List A → List A
  insert_by a [] = a ∷ []
  insert_by a (b ∷ bs) = if text_ltb (key b) (key a) then b ∷ insert_by a bs else a ∷ b ∷ bs

  unfoldable pub sort_by : List A → List A
  unfolding insert_by
  sort_by [] = []
  sort_by (a ∷ l) = insert_by a (sort_by l)

  Trichotomy : A → A → Type ℓ
  Trichotomy a b =
      (text_ltb (key a) (key b) ≡ true) × (text_ltb (key b) (key a) ≡ false)
      ⊎ (text_ltb (key a) (key b) ≡ false) × (text_ltb (key b) (key a) ≡ true)
      ⊎ a ≡ b

  trichotomy : (a b : A) → (key a ≡ key b → a ≡ b) → Trichotomy a b
  unfolding Trichotomy
  trichotomy a b inj = elim (Bool-cases (text_ltb (key a) (key b))) [
    | inl p ↦ inl (p, text_ltb_asymm (key a) (key b) p)
    | inr p ↦ elim (Bool-cases (text_ltb (key b) (key a))) [
      | inl q ↦ inr (inl (p, q))
      | inr q ↦ inr (inr (inj (text_ltb_antisymm (key a) (key b) p q)))
    ]
  ]

  insert_by_comm_of :
      (a b : A) (l : List A)
      → Trichotomy a b
      → insert_by a (insert_by b l) ≡ insert_by b (insert_by a l)
  unfolding insert_by Trichotomy
  insert_by_comm_of a b l (inr (inr e)) = rw e
  insert_by_comm_of a b [] (inl t) = ground arith
  insert_by_comm_of a b [] (inr (inl t)) = ground arith
  insert_by_comm_of a b (c ∷ l) (inl t) = ground (
    arith,
    text_ltb_trans_false (key a) (key b) (key c),
    text_ltb_trans_false (key c) (key b) (key a),
    insert_by_comm_of a b l (inl t),
  )
  insert_by_comm_of a b (c ∷ l) (inr (inl t)) =
      ground
        (arith, text_ltb_trans_false (key b) (key a) (key c), insert_by_comm_of a b l (inr (inl t)))

  -- The key tells the items of the list apart.
  abbrev pub Separates : List A → Type ℓ
  Separates l = (a b : A) → Memᴰ a l → Memᴰ b l → key a ≡ key b → a ≡ b

  pub Separates-tail : (a : A) (l : List A) → Separates (a ∷ l) → Separates l
  Separates-tail a l s x y mx my = s x y (Memᴰ.tail mx) (Memᴰ.tail my)

  pub Separates-perm : {l₁ l₂ : List A} → Permᴰ l₁ l₂ → Separates l₁ → Separates l₂
  Separates-perm d s x y mx my = s x y (Memᴰ-perm (Permᴰ.symm d) mx) (Memᴰ-perm (Permᴰ.symm d) my)

  pub sort_by-perm : {l₁ l₂ : List A} → Permᴰ l₁ l₂ → Separates l₁ → sort_by l₁ ≡ sort_by l₂
  unfolding sort_by
  sort_by-perm Permᴰ.nil s = refl
  sort_by-perm (Permᴰ.cons {a = a} {l₁ = l₁} e d) s =
      rw e (ap (insert_by _) (sort_by-perm d (Separates-tail a l₁ s)))
  sort_by-perm (Permᴰ.swap {a = a} {b = b} {l = l} e₁ e₂) s =
      rw (← e₁, ← e₂)
        (insert_by_comm_of a b (sort_by l)
          (trichotomy a b (s a b (Memᴰ.head refl) (Memᴰ.tail (Memᴰ.head refl)))))
  sort_by-perm (Permᴰ.trans d₁ d₂) s = sort_by-perm d₁ s ∙ sort_by-perm d₂ (Separates-perm d₁ s)
