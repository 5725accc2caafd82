-- ===== src/Volumes/Links/Follow.antt =====
-- controllers/volumes: where the links of a volume lead.
use kube_pet_node.Prelude.{
  ℕ, zero, suc, ◌+◌, List, [], ◌∷◌, ◌++◌, append_assoc, length, drop, All, Bool, false, ◌||◌,
  Bool-cases, inl, inr, if◌then◌else◌, ◌==◌, ◌≡◌, refl, ap, ◌∙◌, arith,
}
use kube_pet_node.Prelude.Text.{Text, str, text_eq}
use kube_pet_node.Prelude.Split.{split, cons_head}
use kube_pet_node.Volumes.Links.{count, repeat, link_target}

-- The components of a path that stay in the directory.
unfoldable pub stays : Text → Bool
stays part = text_eq part [] || text_eq part (str ".")

-- The directory that a relative path leads to, as the file system resolves it. A directory is the list
-- of its names, the innermost first.
unfoldable pub follow : List Text → List Text → List Text
unfolding stays
follow dir [] = dir
follow dir (part ∷ parts) =
    follow (if stays part then dir else if text_eq part (str "..") then drop 1 dir else part ∷ dir)
      parts

-- The names put onto a directory one by one.
abbrev pub onto : List Text → List Text → List Text
onto [] dir = dir
onto (part ∷ parts) dir = onto parts (part ∷ dir)

-- A path whose components are names: not empty, not "." and not "..".
abbrev pub IsPlain : List Text → Type 0
IsPlain = All (λ part. (stays part ≡ false) × (text_eq part (str "..") ≡ false))

length-cons_head :
    (c : ℕ) (ps : List Text) (n : ℕ) → length ps ≡ suc n → length (cons_head c ps) ≡ suc n
unfolding cons_head
length-cons_head c [] n h = absurd (omega arith)
length-cons_head c (p ∷ ps) n h = h

length-split : (sep : ℕ) (s : Text) → length (split sep s) ≡ suc (count sep s)
unfolding split count
length-split sep [] = refl
length-split sep (c ∷ s) = elim (Bool-cases (c == sep)) [
  | inl same ↦ rw same (omega (arith, length-split sep s))
  | inr other ↦ rw other (length-cons_head c (split sep s) (count sep s) (length-split sep s))
]

length-onto : (ps dir : List Text) → length (onto ps dir) ≡ length ps + length dir
length-onto [] dir = omega arith
length-onto (p ∷ ps) dir = omega (arith, length-onto ps (p ∷ dir))

length-drop_one : (ps : List Text) (n : ℕ) → length ps ≡ suc n → length (drop 1 ps) ≡ n
length-drop_one [] n h = absurd (omega arith)
length-drop_one (p ∷ ps) n h = omega arith

follow_plain : (dir ps : List Text) → IsPlain ps → follow dir ps ≡ onto ps dir
unfolding follow
follow_plain dir [] h = refl
follow_plain dir (p ∷ ps) ((named, plain), hs) = rw (named, plain) (follow_plain (p ∷ dir) ps hs)

split_up : (s : Text) → split b'/' (str "../" ++ s) ≡ str ".." ∷ split b'/' s
unfolding split str
split_up s = refl

follow_step : (d : Text) (dir ps : List Text) → follow (d ∷ dir) (str ".." ∷ ps) ≡ follow dir ps
unfolding follow stays text_eq str
follow_step d dir ps = refl

follow_up :
    (n : ℕ) (dir : List Text) (s : Text)
    → length dir ≡ n
    → follow dir (split b'/' (repeat (str "../") n ++ s)) ≡ follow [] (split b'/' s)
unfolding repeat
follow_up zero [] s h = refl
follow_up zero (d ∷ dir) s h = absurd (omega arith)
follow_up (suc n) [] s h = absurd (omega arith)
follow_up (suc n) (d ∷ dir) s h =
    let rest : Text = repeat (str "../") n ++ s in
    ap (λ t. follow (d ∷ dir) (split b'/' t)) (append_assoc (str "../") (repeat (str "../") n) s)
    ∙ ap (follow (d ∷ dir)) (split_up rest)
    ∙ follow_step d dir (split b'/' rest)
    ∙ follow_up n dir s (omega arith)

split_current :
    (s : Text)
    → split b'/' (str "..data/current/" ++ s) ≡ str "..data" ∷ str "current" ∷ split b'/' s
unfolding split str
split_current s = refl

current-IsPlain : (ps : List Text) → IsPlain ps → IsPlain (str "..data" ∷ str "current" ∷ ps)
unfolding str text_eq stays
current-IsPlain ps h = ((refl, refl), ((refl, refl), h))

-- From the directory that holds it, the link at a path of names leads to the same path below
-- "..data/current".
pub follow-link_target :
    (path : Text)
    → IsPlain (split b'/' path)
    → follow (drop 1 (onto (split b'/' path) [])) (split b'/' (link_target path))
      ≡ onto (split b'/' path) (str "current" ∷ str "..data" ∷ [])
unfolding link_target
follow-link_target path h =
    let names : List Text = onto (split b'/' path) [] in
    let deep : length (drop 1 names) ≡ count b'/' path =
      length-drop_one names (count b'/' path)
        (omega (arith, length-onto (split b'/' path) [], length-split b'/' path)) in
    follow_up (count b'/' path) (drop 1 names) (str "..data/current/" ++ path) deep
    ∙ ap (follow []) (split_current path)
    ∙ follow_plain [] (str "..data" ∷ str "current" ∷ split b'/' path)
        (current-IsPlain (split b'/' path) h)
