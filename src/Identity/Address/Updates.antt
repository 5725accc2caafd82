-- ===== src/Identity/Address/Updates.antt =====
-- controllers/nodeidentity/provider.go: the node has the last address that it was told.
use kube_pet_node.Prelude.{
  ◌≤◌, List, [], ◌∷◌, ◌++◌, append-nil, map, length, Bool, true, false, not, ◌&&◌, Bool-cases, inl,
  inr, if◌then◌else◌, ◌≡◌, refl, ap, ◌∙◌, arith,
}
use kube_pet_node.Prelude.Text.{Text, str}
use kube_pet_node.Prelude.Split.{contains}
use kube_pet_node.Identity.Address.{
  AddressType, NodeAddress, is_external, is_external_v4, put_external, external, append_external,
  on_external_ip, on_external_ips,
}

module _ {A : Type 0} (p : A → Bool) where
  abbrev pub keep : List A → List A
  keep [] = []
  keep (x ∷ xs) = let rest = keep xs in if p x then x ∷ rest else rest

  keep-append : (xs ys : List A) → keep (xs ++ ys) ≡ keep xs ++ keep ys
  keep-append [] ys = refl
  keep-append (x ∷ xs) ys = elim (Bool-cases (p x)) [
    | inl yes' ↦ rw yes' (ap (λ l. x ∷ l) (keep-append xs ys))
    | inr no' ↦ rw no' (keep-append xs ys)
  ]

abbrev pub externals : List NodeAddress → List NodeAddress
externals = keep is_external_v4

abbrev pub others : List NodeAddress → List NodeAddress
others = keep (λ a. not (is_external_v4 a))

abbrev pub HasDot : Text → Type 0
HasDot ip = contains (str ".") ip ≡ true

abbrev is_some : List NodeAddress → Bool
is_some [] = false
is_some (a ∷ rest) = true

external-v4 : (ip : Text) → HasDot ip → is_external_v4 (external ip) ≡ true
unfolding is_external_v4
external-v4 ip h = h

type-external :
    (kind : AddressType) (b : Bool)
    → (is_external kind && b) ≡ true
    → kind ≡ AddressType.external_ip
type-external AddressType.external_ip b h = refl
type-external AddressType.host_name b h = cc
type-external AddressType.internal_dns b h = cc
type-external AddressType.internal_ip b h = cc

moved-external :
    (ip : Text) (a : NodeAddress)
    → is_external_v4 a ≡ true
    → record a { address = ip } ≡ external ip
unfolding is_external_v4
moved-external ip a h =
    ap (λ (kind : AddressType). record { address_type = kind; address = ip })
      (type-external a.address_type _ h)

-- The three things that the loop does.
put_external-kept :
    (ip : Text) (addresses : List NodeAddress)
    → HasDot ip
    → ((put_external ip addresses).0 ≡ is_some (externals addresses))
      × (externals (put_external ip addresses).1 ≡ map (λ a. external ip) (externals addresses))
      × (others (put_external ip addresses).1 ≡ others addresses)
unfolding put_external
put_external-kept ip [] h = (refl, refl, refl)
put_external-kept ip (a ∷ addresses) h =
    let (matched, ext, oth) = put_external-kept ip addresses h in
    elim (Bool-cases (is_external_v4 a)) [
      | inl yes' ↦
          rw (yes', moved-external ip a yes', external-v4 ip h)
            (refl, ap (λ l. external ip ∷ l) ext, oth)
      | inr no' ↦ rw (no', no') (matched, ext, ap (λ l. a ∷ l) oth)
    ]

append-latest :
    (ip : Text) (old : List NodeAddress) (found : Bool) (addresses : List NodeAddress)
    → HasDot ip
    → found ≡ is_some old
    → length old ≤ 1
    → externals addresses ≡ map (λ a. external ip) old
    → (externals (append_external ip (found, addresses)) ≡ external ip ∷ [])
      × (others (append_external ip (found, addresses)) ≡ others addresses)
unfolding append_external
append-latest ip [] true addresses h found few ext = cc
append-latest ip [] false addresses h found few ext = (
  keep-append is_external_v4 addresses (external ip ∷ []) ∙ rw (ext, external-v4 ip h) refl,
  keep-append (λ a. not (is_external_v4 a)) addresses (external ip ∷ [])
      ∙ rw (external-v4 ip h) (append-nil (others addresses)),
)
append-latest ip (a ∷ []) true addresses h found few ext = (ext, refl)
append-latest ip (a ∷ []) false addresses h found few ext = cc
append-latest ip (a ∷ b ∷ old) found addresses h e few ext = absurd (omega (arith, few))

on_external_ip-latest :
    (ip : Text) (addresses : List NodeAddress)
    → HasDot ip
    → length (externals addresses) ≤ 1
    → (externals (on_external_ip ip addresses) ≡ external ip ∷ [])
      × (others (on_external_ip ip addresses) ≡ others addresses)
unfolding on_external_ip
on_external_ip-latest ip addresses h few =
    let (matched, ext, oth) = put_external-kept ip addresses h in
    let (one, rest) =
      append-latest ip (externals addresses) (put_external ip addresses).0
        (put_external ip addresses).1 h matched few ext in
    (one, rest ∙ oth)

-- The addresses have a dot, and the last of them is this one.
abbrev pub EndsWith : Text → List Text → Type 0
EndsWith last [] = ⊥
EndsWith last (ip ∷ []) = HasDot ip × (ip ≡ last)
EndsWith last (ip ∷ next ∷ ips) = HasDot ip × EndsWith last (next ∷ ips)

-- When a node has at most one external address with a dot and is told addresses that all have one, it
-- has the last of them as its only such external address, and its other addresses are as before.
pub on_external_ips-latest :
    (last : Text) (ips : List Text) (addresses : List NodeAddress)
    → EndsWith last ips
    → length (externals addresses) ≤ 1
    → (externals (on_external_ips ips addresses) ≡ external last ∷ [])
      × (others (on_external_ips ips addresses) ≡ others addresses)
unfolding on_external_ips
on_external_ips-latest last [] addresses ends few = elim ends [ ]
on_external_ips-latest last (ip ∷ []) addresses (dot, same) few =
    rw (← same) (on_external_ip-latest ip addresses dot few)
on_external_ips-latest last (ip ∷ next ∷ ips) addresses (dot, ends) few =
    let (one, rest) = on_external_ip-latest ip addresses dot few in
    let (latest, kept) =
      on_external_ips-latest last (next ∷ ips) (on_external_ip ip addresses) ends
        (omega (arith, ap length one)) in
    (latest, kept ∙ rest)
