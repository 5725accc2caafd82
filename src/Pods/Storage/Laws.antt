-- ===== src/Pods/Storage/Laws.antt =====
-- What the spec storage (controllers/pods/storage.go) keeps.
use kube_pet_node.Prelude.{
  List, [], ◌∷◌, ◌++◌, Option, none, some, ◌≡◌, ◌≢◌, ◌↔◌, refl, sym, ap, subst, ◌∙◌, arith, false,
  Bool-cases, inl, inr,
}
use mathlib.Core.List.{Memᴰ}
use kube_pet_node.Prelude.Text.{Text, str, text_eq, text_eq_iff, text_eq_refl, text_eq_sound}
use kube_pet_node.Prelude.Assoc.{Assoc, lookup, keys, lookup-insert, lookup-delete}
use kube_pet_node.Prelude.Split.{trim_suffix, trim_suffix-append, trim_suffix_sound}
use kube_pet_node.Pods.Kube.{Pod}
use kube_pet_node.Prelude.Result.{ok, err}
use kube_pet_node.Pods.Coord.{PodCoord, key, file_name}
use kube_pet_node.Pods.Coord.Keys.{IsValid, parse_pod_key_iff, file_name-eq}
use kube_pet_node.Pods.Storage.{
  Json, PodSpecStorage, done, wrote, coord_of, coord_of_file, parse_trimmed, add_coord, list_files,
  list_all_pods, store_pod, read_pod, remove_pod,
}

parse_trimmed_sound :
    (file : Text) (o : Option Text) (c : PodCoord)
    → trim_suffix file (str ".json") ≡ o
    → parse_trimmed o ≡ some c
    → IsValid c × (file ≡ file_name c)
unfolding parse_trimmed
parse_trimmed_sound file none c e h = cc
parse_trimmed_sound file (some k) c e h =
    let (valid, same) = (parse_pod_key_iff k c).0 h in
    (
      valid,
      trim_suffix_sound file (str ".json") k e
          ∙ ap (λ x. x ++ str ".json") (sym same)
          ∙ sym (file_name-eq c),
    )

-- The name of a file gives coordinates exactly when they are valid and it is their file.
pub coord_of_file_iff :
    (file : Text) (c : PodCoord)
    → (coord_of_file file ≡ some c) ↔ (IsValid c × (file ≡ file_name c))
unfolding coord_of_file
coord_of_file_iff file c = (
  parse_trimmed_sound file (trim_suffix file (str ".json")) c refl,
  λ (v, e).
      rw (e, file_name-eq c)
        (rw (trim_suffix-append (key c) (str ".json")) ((parse_pod_key_iff (key c) c).1 (v, refl))),
)

file_name-ne : (a b : PodCoord) → IsValid a → IsValid b → a ≢ b → file_name a ≢ file_name b
file_name-ne a b v w ne e =
    let same : some a ≡ some b =
      sym ((coord_of_file_iff (file_name a) a).1 (v, refl))
      ∙ (coord_of_file_iff (file_name a) b).1 (w, e) in
    ne (cc)

file_name-other :
    (a b : PodCoord) → IsValid a → IsValid b → a ≢ b → text_eq (file_name a) (file_name b) ≡ false
file_name-other a b v w ne =
    ground (arith, text_eq_iff (file_name a) (file_name b), file_name-ne a b v w ne)

-- When the system refuses nothing, the storage is a map from coordinates to encoded pods. A pod that
-- could be encoded is read as what its encoding decodes to; once it is removed, its spec cannot be
-- read; and neither call changes what is read for other coordinates, all of them valid.
pub read-store :
    (json : Json) (pod : Pod) (pss : PodSpecStorage) (t : Text) (other : PodCoord)
    → json.encode pod ≡ ok t
    → IsValid (coord_of pod)
    → IsValid other
    → coord_of pod ≢ other
    → let stored : PodSpecStorage = (store_pod json done wrote pod pss).0 in
      let removed : PodSpecStorage = (remove_pod done (coord_of pod) pss).0 in
      (read_pod json done (coord_of pod) stored ≡ json.decode t)
      × (read_pod json done other stored ≡ read_pod json done other pss)
      × (read_pod json done (coord_of pod) removed ≡ err (str "no such file or directory"))
      × (read_pod json done other removed ≡ read_pod json done other pss)
unfolding store_pod read_pod remove_pod
read-store json pod pss t other e v w ne =
    let own : Text = file_name (coord_of pod) in
    let apart : text_eq own (file_name other) ≡ false =
      file_name-other (coord_of pod) other v w ne in
    (
      rw e (rw (lookup-insert own own t pss.files) (rw (text_eq_refl own) refl)),
      rw e (rw (lookup-insert own (file_name other) t pss.files) (rw apart refl)),
      rw (lookup-delete own own pss.files) (rw (text_eq_refl own) refl),
      rw (lookup-delete own (file_name other) pss.files) (rw apart refl),
    )

lookup-keys : (k : Text) (m : Assoc Text) → Memᴰ k (keys m) → lookup k m ≢ none
unfolding keys lookup
lookup-keys k [] h e = elim h [ ]
lookup-keys k ((j, v) ∷ m) (Memᴰ.head same) e = ground (arith, text_eq_iff j k)
lookup-keys k ((j, v) ∷ m) (Memᴰ.tail h) e = lookup-keys k m h (ground (arith, text_eq_iff j k))

keys-lookup : (k : Text) (m : Assoc Text) → lookup k m ≢ none → Memᴰ k (keys m)
unfolding keys lookup
keys-lookup k [] h = absurd (h refl)
keys-lookup k ((j, v) ∷ m) h = elim (Bool-cases (text_eq j k)) [
  | inl same ↦ Memᴰ.head (sym (text_eq_sound j k same))
  | inr other ↦ Memᴰ.tail (keys-lookup k m (λ e. h (rw other e)))
]

add_coord-sound :
    (file : Text) (files : List Text) (list : List PodCoord) (c : PodCoord) (o : Option PodCoord)
    → coord_of_file file ≡ o
    → (Memᴰ c list → Memᴰ (file_name c) files)
    → Memᴰ c (add_coord o list)
    → Memᴰ (file_name c) (file ∷ files)
unfolding add_coord
add_coord-sound file files list c none e ih m = Memᴰ.tail (ih m)
add_coord-sound file files list c (some d) e ih (Memᴰ.head same) =
    Memᴰ.head (ap file_name same ∙ sym ((coord_of_file_iff file d).0 e).1)
add_coord-sound file files list c (some d) e ih (Memᴰ.tail m) = Memᴰ.tail (ih m)

list_files-sound :
    (files : List Text) (c : PodCoord) → Memᴰ c (list_files files) → Memᴰ (file_name c) files
unfolding list_files
list_files-sound [] c m = elim m [ ]
list_files-sound (file ∷ files) c m =
    add_coord-sound file files (list_files files) c (coord_of_file file) refl
      (list_files-sound files c) m

add_coord-mem :
    (c : PodCoord) (o : Option PodCoord) (list : List PodCoord)
    → Memᴰ c list
    → Memᴰ c (add_coord o list)
unfolding add_coord
add_coord-mem c none list m = m
add_coord-mem c (some d) list m = Memᴰ.tail m

list_files-complete :
    (files : List Text) (c : PodCoord)
    → IsValid c
    → Memᴰ (file_name c) files
    → Memᴰ c (list_files files)
unfolding list_files
list_files-complete [] c v m = elim m [ ]
list_files-complete (file ∷ files) c v (Memᴰ.head same) =
    rw ((coord_of_file_iff file c).1 (v, sym same)) (unfold add_coord in Memᴰ.head refl)
list_files-complete (file ∷ files) c v (Memᴰ.tail m) =
    add_coord-mem c (coord_of_file file) (list_files files) (list_files-complete files c v m)

add_coord-IsValid :
    (file : Text) (list : List PodCoord) (c : PodCoord) (o : Option PodCoord)
    → coord_of_file file ≡ o
    → (Memᴰ c list → IsValid c)
    → Memᴰ c (add_coord o list)
    → IsValid c
unfolding add_coord
add_coord-IsValid file list c none e ih m = ih m
add_coord-IsValid file list c (some d) e ih (Memᴰ.head same) =
    subst IsValid (sym same) ((coord_of_file_iff file d).0 e).0
add_coord-IsValid file list c (some d) e ih (Memᴰ.tail m) = ih m

list_files-IsValid : (files : List Text) (c : PodCoord) → Memᴰ c (list_files files) → IsValid c
unfolding list_files
list_files-IsValid [] c m = elim m [ ]
list_files-IsValid (file ∷ files) c m =
    add_coord-IsValid file (list_files files) c (coord_of_file file) refl
      (list_files-IsValid files c) m

-- When the directory can be read, a list is given, in which the coordinates stand exactly when they are
-- valid and their file is there.
pub list_all_pods_iff :
    (pss : PodSpecStorage) (c : PodCoord)
    → (list : List PodCoord) × (list_all_pods done pss ≡ ok list)
      × (Memᴰ c list ↔ (IsValid c × (lookup (file_name c) pss.files ≢ none)))
unfolding list_all_pods
list_all_pods_iff pss c = (
  list_files (keys pss.files),
  refl,
  (
    λ m. (
      list_files-IsValid (keys pss.files) c m,
      lookup-keys (file_name c) pss.files (list_files-sound (keys pss.files) c m),
    ),
    λ (v, h). list_files-complete (keys pss.files) c v (keys-lookup (file_name c) pss.files h),
  ),
)
