-- ===== src/Pods/Storage.antt =====
-- controllers/pods/storage.go: pod specs as JSON files of one directory. The encoder and decoder of
-- encoding/json are parameters; what the operating system answers is an argument of each call.
pub mod Laws
pub mod Apart
pub mod Keeps
use kube_pet_node.Prelude.{ℕ, List, [], ◌∷◌, ◌++◌, Option, none, some, ◌≡◌, take}
use kube_pet_node.Prelude.Text.{Text, str}
use kube_pet_node.Prelude.Assoc.{Assoc, lookup, insert, delete, keys}
use kube_pet_node.Prelude.Split.{trim_suffix}
use kube_pet_node.Pods.Kube.{Pod}
use kube_pet_node.Prelude.Result.{Result, ok, err}
use kube_pet_node.Pods.Coord.{PodCoord, parse_pod_key, file_name}

-- json.Encoder.Encode and json.Decoder.Decode on a pod. A pod that is encoded and decoded need not be
-- the same: members that are empty are left out of the text.
pub record Json : Type 0 where
  pub encode : Pod → Result Text
  pub decode : Text → Result Pod

-- The files of the root directory by name.
pub record PodSpecStorage : Type 0 where
  pub files : Assoc Text

-- What the system answers to a call that opens, lists or removes.
pub data Answer : Type 0 where
  done : Answer
  denied : Text → Answer

-- What it answers to the write: all written, or an error after so many bytes.
pub data WriteAnswer : Type 0 where
  wrote : WriteAnswer
  broke : ℕ → Text → WriteAnswer

unfoldable pub coord_of : Pod → PodCoord
coord_of pod = record { namespace = pod.namespace; name = pod.name }

parse_trimmed : Option Text → Option PodCoord
parse_trimmed none = none
parse_trimmed (some pod_key) = parse_pod_key pod_key

unfoldable pub coord_of_file : Text → Option PodCoord
unfolding parse_trimmed
coord_of_file file = parse_trimmed (trim_suffix file (str ".json"))

add_coord : Option PodCoord → List PodCoord → List PodCoord
add_coord none list = list
add_coord (some coord) list = coord ∷ list

-- The loop over the files; a file with another name is passed over.
unfoldable pub list_files : List Text → List PodCoord
unfolding coord_of_file add_coord
list_files [] = []
list_files (file ∷ files) = add_coord (coord_of_file file) (list_files files)

unfoldable pub list_all_pods : Answer → PodSpecStorage → Result (List PodCoord)
unfolding list_files
list_all_pods (denied e) pss = err e
list_all_pods done pss = ok (list_files (keys pss.files))

abbrev put_file : Text → Text → PodSpecStorage → PodSpecStorage
put_file name body pss = record { files = insert name body pss.files }

-- The write of the encoded pod to the file that `os.Create` has emptied.
write_pod :
    Text → PodCoord → WriteAnswer → Result Text → PodSpecStorage → PodSpecStorage × Result PodCoord
write_pod name coord answer (err e) pss = (put_file name [] pss, err e)
write_pod name coord wrote (ok body) pss = (put_file name body pss, ok coord)
write_pod name coord (broke n e) (ok body) pss = (put_file name (take n body) pss, err e)

module _ (json : Json) where
  unfoldable pub store_pod :
      Answer → WriteAnswer → Pod → PodSpecStorage → PodSpecStorage × Result PodCoord
  unfolding write_pod coord_of
  store_pod (denied e) answer pod pss = (pss, err e)
  store_pod done answer pod pss =
      write_pod (file_name (coord_of pod)) (coord_of pod) answer (json.encode pod) pss

  decode_file : Option Text → Result Pod
  decode_file none = err (str "no such file or directory")
  decode_file (some body) = json.decode body

  -- A missing file makes `os.Open` fail.
  unfoldable pub read_pod : Answer → PodCoord → PodSpecStorage → Result Pod
  unfolding decode_file
  read_pod (denied e) coord pss = err e
  read_pod done coord pss = decode_file (lookup (file_name coord) pss.files)

-- `os.Remove` of a missing file fails with an error that is passed over.
unfoldable pub remove_pod : Answer → PodCoord → PodSpecStorage → PodSpecStorage × Result (Unit {0})
remove_pod (denied e) coord pss = (pss, err e)
remove_pod done coord pss = (record { files = delete (file_name coord) pss.files }, ok tt)
