-- ===== src/Wireguard/Keys.antt =====
-- pkg/wireguard/keypair-noise.go: private keys as lists of bytes. base64 and the curve are parameters.
pub mod Clamp
use kube_pet_node.Prelude.{
  ℕ, zero, suc, ◌+◌, ◌*◌, ◌/◌, ◌%◌, List, [], ◌∷◌, length, ◌==◌, if◌then◌else◌, ◌≡◌, ◌≢◌, false,
}
use kube_pet_node.Prelude.Text.{Text, str, text_eq}
use kube_pet_node.Prelude.Result.{Result, ok, err}

pub record KeyLibrary : Type 0 where
  pub encode_base64 : Text → Text
  pub decode_base64 : Text → Result Text
  pub scalar_base_mult : Text → Text
  pub encode-full : (t : Text) → t ≢ [] → text_eq (encode_base64 t) [] ≡ false
  pub decode-encode : (t : Text) → decode_base64 (encode_base64 t) ≡ ok t

-- (b & 127) | 64
abbrev pub clamp_last : ℕ → ℕ
clamp_last b = b % 64 + 64

unfoldable pub at_index : ℕ → (ℕ → ℕ) → List ℕ → List ℕ
at_index n f [] = []
at_index zero f (b ∷ bs) = f b ∷ bs
at_index (suc n) f (b ∷ bs) = b ∷ at_index n f bs

-- The first byte loses its three low bits; the byte with index 31 its high bit, and gains the next.
unfoldable pub clamp : List ℕ → List ℕ
unfolding at_index
clamp [] = []
clamp (b ∷ bs) = b / 8 * 8 ∷ at_index 30 clamp_last bs

module _ (lib : KeyLibrary) where
  exact_key : Result Text → Result Text
  exact_key (err e) = err e
  exact_key (ok slice) =
      if length slice == 32
      then ok (clamp slice)
      else err (str "base64 string does not fit the slice")

  unfoldable pub read_private_key_from_base64 : Text → Result Text
  unfolding exact_key clamp
  read_private_key_from_base64 src = exact_key (lib.decode_base64 src)

  -- Of the random bytes that the system gives.
  unfoldable pub new_private_key : Result Text → Result Text
  new_private_key (err e) = err e
  new_private_key (ok random) = ok (clamp random)

  unfoldable pub public_key : Text → Text
  public_key sk = lib.encode_base64 (lib.scalar_base_mult sk)
