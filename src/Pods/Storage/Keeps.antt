-- ===== src/Pods/Storage/Keeps.antt =====
-- controllers/pods/storage.go: which files a call leaves in place.
use kube_pet_node.Prelude.{none, ◌≡◌, ◌≢◌, arith, []}
use kube_pet_node.Prelude.Text.{Text, text_eq_iff}
use kube_pet_node.Prelude.Assoc.{lookup, lookup-insert, lookup-delete}
use kube_pet_node.Pods.Kube.{Pod}
use kube_pet_node.Prelude.Result.{Result, ok, err}
use kube_pet_node.Pods.Coord.{PodCoord, file_name}
use kube_pet_node.Pods.Storage.{
  Json, PodSpecStorage, Answer, done, denied, WriteAnswer, wrote, broke, store_pod, write_pod,
  put_file, remove_pod, coord_of, read_pod, decode_file,
}

abbrev pub HasFile : Text → PodSpecStorage → Type 0
HasFile name pss = lookup name pss.files ≢ none

put_file-has : (name body : Text) (pss : PodSpecStorage) → HasFile name (put_file name body pss)
put_file-has name body pss =
    ground (arith, lookup-insert name name body pss.files, text_eq_iff name name)

put_file-keeps :
    (name body other : Text) (pss : PodSpecStorage)
    → HasFile other pss
    → HasFile other (put_file name body pss)
put_file-keeps name body other pss h = ground (arith, lookup-insert name other body pss.files)

write_pod-keeps :
    (name other : Text) (coord : PodCoord) (answer : WriteAnswer) (body : Result Text)
    (pss : PodSpecStorage)
    → HasFile other pss
    → HasFile other (write_pod name coord answer body pss).0
unfolding write_pod
write_pod-keeps name other coord answer (err e) pss h = put_file-keeps name [] other pss h
write_pod-keeps name other coord wrote (ok body) pss h = put_file-keeps name body other pss h
write_pod-keeps name other coord (broke n e) (ok body) pss h = put_file-keeps name _ other pss h

-- Storing a pod leaves no file out that was there.
pub store_pod-keeps :
    (json : Json) (opened : Answer) (written : WriteAnswer) (pod : Pod) (other : Text)
    (pss : PodSpecStorage)
    → HasFile other pss
    → HasFile other (store_pod json opened written pod pss).0
unfolding store_pod
store_pod-keeps json (denied e) written pod other pss h = h
store_pod-keeps json done written pod other pss h =
    write_pod-keeps (file_name (coord_of pod)) other (coord_of pod) written (json.encode pod) pss h

write_pod-ok :
    (name : Text) (coord got : PodCoord) (answer : WriteAnswer) (body : Result Text)
    (pss : PodSpecStorage)
    → (write_pod name coord answer body pss).1 ≡ ok got
    → (got ≡ coord) × HasFile name (write_pod name coord answer body pss).0
unfolding write_pod
write_pod-ok name coord got answer (err e) pss h = cc
write_pod-ok name coord got wrote (ok body) pss h = (cc, put_file-has name body pss)
write_pod-ok name coord got (broke n e) (ok body) pss h = cc

-- A pod that was stored without an error has its file.
pub store_pod-ok :
    (json : Json) (opened : Answer) (written : WriteAnswer) (pod : Pod) (got : PodCoord)
    (pss : PodSpecStorage)
    → (store_pod json opened written pod pss).1 ≡ ok got
    → (got ≡ coord_of pod) × HasFile (file_name got) (store_pod json opened written pod pss).0
unfolding store_pod
store_pod-ok json (denied e) written pod got pss h = cc
store_pod-ok json done written pod got pss h =
    let (same, has) =
      write_pod-ok (file_name (coord_of pod)) (coord_of pod) got written (json.encode pod) pss h in
    (same, rw same has)

-- Removing a pod's spec leaves the other files.
pub remove_pod-keeps :
    (answer : Answer) (coord : PodCoord) (other : Text) (pss : PodSpecStorage)
    → file_name coord ≢ other
    → HasFile other pss
    → HasFile other (remove_pod answer coord pss).0
unfolding remove_pod
remove_pod-keeps (denied e) coord other pss ne h = h
remove_pod-keeps done coord other pss ne h =
    ground
      (arith, lookup-delete (file_name coord) other pss.files, text_eq_iff (file_name coord) other)

-- A pod that is read has a file.
pub read_pod-HasFile :
    (json : Json) (answer : Answer) (coord : PodCoord) (pod : Pod) (pss : PodSpecStorage)
    → read_pod json answer coord pss ≡ ok pod
    → HasFile (file_name coord) pss
unfolding read_pod decode_file
read_pod-HasFile json (denied e) coord pod pss h = cc
read_pod-HasFile json done coord pod pss h =
    λ missing. let no : decode_file json none ≡ ok pod = rw missing at h in cc
