-- ===== src/Wireguard/Keys/Clamp.antt =====
-- pkg/wireguard/keypair-noise.go: a clamped key is read back from base64 as it is.
use kube_pet_node.Prelude.{
  ℕ, zero, suc, ◌*◌, ◌/◌, List, [], ◌∷◌, length, true, ◌==◌, ◌≡◌, refl, ap, ◌∙◌, arith,
}
use kube_pet_node.Prelude.Text.{Text}
use kube_pet_node.Prelude.Result.{ok}
use kube_pet_node.Wireguard.Keys.{
  KeyLibrary, clamp_last, at_index, clamp, exact_key, read_private_key_from_base64,
}

at_index-twice :
    (n : ℕ) (f : ℕ → ℕ) (bs : List ℕ)
    → ((b : ℕ) → f (f b) ≡ f b)
    → at_index n f (at_index n f bs) ≡ at_index n f bs
unfolding at_index
at_index-twice n f [] h = refl
at_index-twice zero f (b ∷ bs) h = ap (λ c. c ∷ bs) (h b)
at_index-twice (suc n) f (b ∷ bs) h = ap (λ cs. b ∷ cs) (at_index-twice n f bs h)

length-at_index : (n : ℕ) (f : ℕ → ℕ) (bs : List ℕ) → length (at_index n f bs) ≡ length bs
unfolding at_index
length-at_index n f [] = refl
length-at_index zero f (b ∷ bs) = refl
length-at_index (suc n) f (b ∷ bs) = ap suc (length-at_index n f bs)

last-twice : (b : ℕ) → clamp_last (clamp_last b) ≡ clamp_last b
last-twice b = omega arith

first-twice : (b : ℕ) → b / 8 * 8 / 8 * 8 ≡ b / 8 * 8
first-twice b = omega arith

pub clamp-clamp : (sk : Text) → clamp (clamp sk) ≡ clamp sk
unfolding clamp
clamp-clamp [] = refl
clamp-clamp (b ∷ bs) = rw (first-twice b, at_index-twice 30 clamp_last bs last-twice) refl

pub length-clamp : (sk : Text) → length (clamp sk) ≡ length sk
unfolding clamp
length-clamp [] = refl
length-clamp (b ∷ bs) = ap suc (length-at_index 30 clamp_last bs)

-- A key of 32 random bytes, written in base64, is read back.
pub read_private_key-encode :
    (lib : KeyLibrary) (random : Text)
    → length random ≡ 32
    → read_private_key_from_base64 lib (lib.encode_base64 (clamp random)) ≡ ok (clamp random)
unfolding read_private_key_from_base64 exact_key
read_private_key-encode lib random h =
    let fits : (length (clamp random) == 32) ≡ true = rw (length-clamp random ∙ h) refl in
    rw (lib.decode-encode (clamp random)) (rw fits (ap ok (clamp-clamp random)))
