-- ===== src/KubeApi/Keys.antt =====
-- controllers/kubeapi/storage.go: the files with the key material, by extension. What the system
-- answers is an argument of each call.
pub mod Files
use kube_pet_node.Prelude.{ℕ, [], Option, none, some, take}
use kube_pet_node.Prelude.Text.{Text, str}
use kube_pet_node.Prelude.Assoc.{Assoc, lookup, insert}
use kube_pet_node.Prelude.Result.{Result, ok, err}
use kube_pet_node.Pods.Storage.{Answer, done, denied, WriteAnswer, wrote, broke}

pub record KeyMaterialStorage : Type 0 where
  pub files : Assoc Text

-- What the generator of the key does: the file that it leaves, if any, and its error.
pub record Keygen : Type 0 where
  pub leaves : Option Text
  pub result : Result (Unit {0})

abbrev pub put_file : Text → Text → KeyMaterialStorage → KeyMaterialStorage
put_file extension body pss = record { files = insert extension body pss.files }

left_key : Option Text → KeyMaterialStorage → KeyMaterialStorage
left_key none pss = pss
left_key (some key) pss = put_file (str ".key") key pss

-- The generator runs unless `os.Stat` finds the file.
key_for :
    Answer → Option Text → Keygen → KeyMaterialStorage → KeyMaterialStorage × Result (Unit {0})
unfolding left_key
key_for (denied e) key keygen pss = (left_key keygen.leaves pss, keygen.result)
key_for done none keygen pss = (left_key keygen.leaves pss, keygen.result)
key_for done (some key) keygen pss = (pss, ok tt)

unfoldable pub ensure_private_key_exists :
    Answer → Keygen → KeyMaterialStorage → KeyMaterialStorage × Result (Unit {0})
unfolding key_for
ensure_private_key_exists stat keygen pss = key_for stat (lookup (str ".key") pss.files) keygen pss

-- `os.Create` empties the file first.
unfoldable pub store_file :
    Answer → WriteAnswer → Text → Text → KeyMaterialStorage → KeyMaterialStorage × Result (Unit {0})
store_file (denied e) written extension body pss = (pss, err e)
store_file done wrote extension body pss = (put_file extension body pss, ok tt)
store_file done (broke n e) extension body pss = (put_file extension (take n body) pss, err e)
