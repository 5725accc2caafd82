-- ===== src/KubeApi/Keys/Files.antt =====
-- controllers/kubeapi/storage.go: which files a call leaves.
use kube_pet_node.Prelude.{Option, none, some, false, ◌≡◌, ◌≢◌, refl, sym, ◌∙◌}
use kube_pet_node.Prelude.Text.{Text, str, text_eq, text_eq_refl}
use kube_pet_node.Prelude.Assoc.{lookup, lookup-insert}
use kube_pet_node.Prelude.Result.{ok}
use kube_pet_node.Pods.Storage.{Answer, done, denied, WriteAnswer, wrote, broke}
use kube_pet_node.KubeApi.Keys.{
  KeyMaterialStorage, Keygen, left_key, key_for, ensure_private_key_exists, store_file,
}

abbrev pub HasKey : KeyMaterialStorage → Type 0
HasKey pss = lookup (str ".key") pss.files ≢ none

crt-key : text_eq (str ".crt") (str ".key") ≡ false
unfolding text_eq str
crt-key = refl

left-HasKey :
    (leaves : Option Text) (pss : KeyMaterialStorage) → leaves ≢ none → HasKey (left_key leaves pss)
unfolding left_key
left-HasKey none pss h = absurd (h refl)
left-HasKey (some key) pss h = λ missing.
    let now : some key ≡ none =
      sym (
        lookup-insert (str ".key") (str ".key") key pss.files ∙ rw (text_eq_refl (str ".key")) refl)
      ∙ missing in
    cc

key_for-HasKey :
    (stat : Answer) (key : Option Text) (keygen : Keygen) (pss : KeyMaterialStorage)
    → lookup (str ".key") pss.files ≡ key
    → (keygen.result ≡ ok tt → keygen.leaves ≢ none)
    → (key_for stat key keygen pss).1 ≡ ok tt
    → HasKey (key_for stat key keygen pss).0
unfolding key_for
key_for-HasKey (denied m) key keygen pss at honest e = left-HasKey keygen.leaves pss (honest e)
key_for-HasKey done none keygen pss at honest e = left-HasKey keygen.leaves pss (honest e)
key_for-HasKey done (some key) keygen pss at honest e =
    λ missing. let no' : some key ≡ none = sym at ∙ missing in cc

-- After a successful call there is a key, when a generator that succeeds leaves one.
pub ensure_private_key_exists-HasKey :
    (stat : Answer) (keygen : Keygen) (pss : KeyMaterialStorage)
    → (keygen.result ≡ ok tt → keygen.leaves ≢ none)
    → (ensure_private_key_exists stat keygen pss).1 ≡ ok tt
    → HasKey (ensure_private_key_exists stat keygen pss).0
unfolding ensure_private_key_exists
ensure_private_key_exists-HasKey stat keygen pss honest e =
    key_for-HasKey stat (lookup (str ".key") pss.files) keygen pss refl honest e

-- A certificate that could be stored is there, beside the key.
pub store_file-certificate :
    (created : Answer) (written : WriteAnswer) (certificate : Text) (pss : KeyMaterialStorage)
    → HasKey pss
    → (store_file created written (str ".crt") certificate pss).1 ≡ ok tt
    → (lookup (str ".crt") (store_file created written (str ".crt") certificate pss).0.files
        ≡ some certificate)
      × HasKey (store_file created written (str ".crt") certificate pss).0
unfolding store_file
store_file-certificate (denied m) written certificate pss key e = cc
store_file-certificate done (broke n m) certificate pss key e = cc
store_file-certificate done wrote certificate pss key e = (
  lookup-insert (str ".crt") (str ".crt") certificate pss.files
      ∙ rw (text_eq_refl (str ".crt")) refl,
  λ missing. key (
      sym (lookup-insert (str ".crt") (str ".key") certificate pss.files ∙ rw crt-key refl)
      ∙ missing),
)
