-- ===== src/Pods/Storage/Apart.antt =====
-- controllers/pods/storage.go: the listed pods differ when the names of the files do.
use kube_pet_node.Prelude.{
  List, [], ◌∷◌, ◌++◌, All, some, Option-cases, inl, inr, ◌≡◌, ◌≢◌, sym, ap, subst, ◌∙◌,
}
use kube_pet_node.Prelude.Text.{Text, str}
use kube_pet_node.Prelude.Assoc.{IsDistinct}
use kube_pet_node.Pods.Coord.{PodCoord, key}
use kube_pet_node.Pods.Coord.Keys.{file_name-eq}
use kube_pet_node.Pods.Storage.{coord_of_file, add_coord, list_files}
use kube_pet_node.Pods.Storage.Laws.{coord_of_file_iff}

-- The keys of the coordinates differ.
abbrev pub AreApart : List PodCoord → Type 0
AreApart [] = Unit {0}
AreApart (c ∷ cs) = All (λ d. key c ≢ key d) cs × AreApart cs

file_eq : (file : Text) (c : PodCoord) → coord_of_file file ≡ some c → file ≡ key c ++ str ".json"
file_eq file c e = ((coord_of_file_iff file c).0 e).1 ∙ file_name-eq c

list_files-apart :
    (c : PodCoord) (files : List Text)
    → All (λ file. key c ++ str ".json" ≢ file) files
    → All (λ d. key c ≢ key d) (list_files files)
unfolding list_files add_coord
list_files-apart c [] h = tt
list_files-apart c (file ∷ files) (ne, h) = elim (Option-cases (coord_of_file file)) [
  | inl none' ↦ rw none' (list_files-apart c files h)
  | inr (d, e) ↦ rw e (
    λ same. ne (ap (λ k. k ++ str ".json") same ∙ sym (file_eq file d e)),
    list_files-apart c files h,
  )
]

pub list_files-AreApart : (files : List Text) → IsDistinct files → AreApart (list_files files)
unfolding list_files add_coord
list_files-AreApart [] h = tt
list_files-AreApart (file ∷ files) (ne, h) = elim (Option-cases (coord_of_file file)) [
  | inl none' ↦ rw none' (list_files-AreApart files h)
  | inr (c, e) ↦ rw e (
    list_files-apart c files (subst (λ f. All (λ other. f ≢ other) files) (file_eq file c e) ne),
    list_files-AreApart files h,
  )
]
