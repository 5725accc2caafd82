-- ===== src/Prelude/Split.antt =====
-- strings.Split at one byte, strings.HasPrefix, Contains, HasSuffix and TrimSuffix.
use kube_pet_node.Prelude.{
  ℕ, zero, suc, ◌-◌, List, [], ◌∷◌, ◌++◌, Option, none, some, ◌≡◌, ◌≢◌, refl, sym, ap, ◌∙◌, Bool,
  true, false, ◌&&◌, ◌||◌, arith, if◌then◌else◌, ◌==◌, leb, length, length-append, le→leb, take,
  drop, take-append, All, Bool-cases, if-some, inl, inr,
}
use kube_pet_node.Prelude.Text.{Text, text_eq, text_eq_refl, text_eq_sound}

-- `starts_with prefix s` is strings.HasPrefix(s, prefix).
unfoldable pub starts_with : Text → Text → Bool
starts_with [] t = true
starts_with (c ∷ s) [] = false
starts_with (c ∷ s) (d ∷ t) = let rest = starts_with s t in if c == d then rest else false

-- strings.Contains
unfoldable pub contains : Text → Text → Bool
unfolding starts_with
contains t [] = starts_with t []
contains t (c ∷ s) = starts_with t (c ∷ s) || contains t s

unfoldable pub cons_head : ℕ → List Text → List Text
cons_head c [] = (c ∷ []) ∷ []
cons_head c (p ∷ ps) = (c ∷ p) ∷ ps

-- The parts between the separators; there is always one.
unfoldable pub split : ℕ → Text → List Text
unfolding cons_head
split sep [] = [] ∷ []
split sep (c ∷ s) = let rest = split sep s in if c == sep then [] ∷ rest else cons_head c rest

abbrev pub Lacks : ℕ → Text → Type 0
Lacks sep = All (λ c. c ≢ sep)

-- The parts joined by the separator.
abbrev pub join : ℕ → List Text → Text
join sep [] = []
join sep (p ∷ []) = p
join sep (p ∷ q ∷ ps) = p ++ (sep ∷ join sep (q ∷ ps))

pub split_lacking : (sep : ℕ) (s : Text) → Lacks sep s → split sep s ≡ s ∷ []
unfolding split
split_lacking sep [] h = refl
split_lacking sep (c ∷ s) (h, hs) = ground (arith, split_lacking sep s hs)

pub split-append :
    (sep : ℕ) (a b : Text) → Lacks sep a → split sep (a ++ (sep ∷ b)) ≡ a ∷ split sep b
unfolding split
split-append sep [] b h = ground arith
split-append sep (c ∷ a) b (h, hs) = ground (arith, split-append sep a b hs)

join-cons_head : (sep c : ℕ) (ps : List Text) → join sep (cons_head c ps) ≡ c ∷ join sep ps
unfolding cons_head
join-cons_head sep c [] = refl
join-cons_head sep c (p ∷ []) = refl
join-cons_head sep c (p ∷ q ∷ ps) = refl

cons_head-ne : (c : ℕ) (ps : List Text) → cons_head c ps ≢ []
unfolding cons_head
cons_head-ne c [] e = ground arith
cons_head-ne c (p ∷ ps) e = ground arith

split-ne : (sep : ℕ) (s : Text) → split sep s ≢ []
unfolding split
split-ne sep [] e = ground arith
split-ne sep (c ∷ s) e = elim (Bool-cases (c == sep)) [
  | inl same ↦ (let h : [] ∷ split sep s ≡ [] = rw same at e in ground arith)
  | inr other ↦ cons_head-ne c (split sep s) (rw other at e)
]

join-nil_cons : (sep : ℕ) (ps : List Text) → ps ≢ [] → join sep ([] ∷ ps) ≡ sep ∷ join sep ps
join-nil_cons sep [] h = absurd (h refl)
join-nil_cons sep (p ∷ ps) h = refl

==-eq : (a b : ℕ) → (a == b) ≡ true → a ≡ b
==-eq a b h = ground arith

==-ne : (a b : ℕ) → (a == b) ≡ false → a ≢ b
==-ne a b h e = ground arith

pub join-split : (sep : ℕ) (s : Text) → join sep (split sep s) ≡ s
unfolding split
join-split sep [] = refl
join-split sep (c ∷ s) = elim (Bool-cases (c == sep)) [
  | inl same ↦ rw same (
      join-nil_cons sep (split sep s) (split-ne sep s)
      ∙ rw (join-split sep s, ==-eq c sep same) refl)
  | inr other ↦ rw other (join-cons_head sep c (split sep s) ∙ rw (join-split sep s) refl)
]

cons_head-Lacks :
    (sep c : ℕ) (ps : List Text) → c ≢ sep → All (Lacks sep) ps → All (Lacks sep) (cons_head c ps)
unfolding cons_head
cons_head-Lacks sep c [] h k = ((h, tt), tt)
cons_head-Lacks sep c (p ∷ ps) h (k, ks) = ((h, k), ks)

pub split-Lacks : (sep : ℕ) (s : Text) → All (Lacks sep) (split sep s)
unfolding split
split-Lacks sep [] = (tt, tt)
split-Lacks sep (c ∷ s) = elim (Bool-cases (c == sep)) [
  | inl same ↦ rw same (tt, split-Lacks sep s)
  | inr other ↦
      rw other (cons_head-Lacks sep c (split sep s) (==-ne c sep other) (split-Lacks sep s))
]

-- strings.HasSuffix and strings.TrimSuffix in one: the text before the suffix.
unfoldable pub trim_suffix : Text → Text → Option Text
trim_suffix s suffix =
    let n = length s - length suffix in
    if leb (length suffix) (length s) && text_eq (drop n s) suffix then some (take n s) else none

drop-append : (s t : Text) → drop (length s) (s ++ t) ≡ t
drop-append [] t = refl
drop-append (c ∷ s) t = drop-append s t

pub trim_suffix-append : (s suffix : Text) → trim_suffix (s ++ suffix) suffix ≡ some s
unfolding trim_suffix
trim_suffix-append s suffix =
    let n : length (s ++ suffix) - length suffix ≡ length s =
      omega (arith, length-append s suffix) in
    let fits : leb (length suffix) (length (s ++ suffix)) ≡ true =
      le→leb _ _ (omega (arith, length-append s suffix)) in
    rw (n, fits) (rw (drop-append s suffix, take-append s suffix) (rw (text_eq_refl suffix)))

take-append-drop : (n : ℕ) (s : Text) → take n s ++ drop n s ≡ s
take-append-drop zero s = refl
take-append-drop (suc n) [] = refl
take-append-drop (suc n) (c ∷ s) = ap (λ t. c ∷ t) (take-append-drop n s)

second : (a b : Bool) → (a && b) ≡ true → b ≡ true
second a b h = ground arith

pub trim_suffix_sound : (s suffix t : Text) → trim_suffix s suffix ≡ some t → s ≡ t ++ suffix
unfolding trim_suffix
trim_suffix_sound s suffix t h =
    let n : ℕ = length s - length suffix in
    let (e, taken) =
      if-some (leb (length suffix) (length s) && text_eq (drop n s) suffix) (take n s) t h in
    let same : drop n s ≡ suffix =
      text_eq_sound (drop n s) suffix (second (leb (length suffix) (length s)) _ e) in
    sym (take-append-drop n s) ∙ rw (taken, same) refl
