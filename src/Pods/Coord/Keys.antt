-- ===== src/Pods/Coord/Keys.antt =====
-- The keys of controllers/pods/coord.go and their parser.
use kube_pet_node.Prelude.{
  append_assoc, List, [], ◌∷◌, ◌++◌, some, ◌≡◌, ◌≢◌, ◌↔◌, refl, sym, ap, ◌∙◌, ◌||◌, arith,
  Bool-cases, inl, inr, All,
}
use kube_pet_node.Prelude.Text.{str, Text, text_eq, text_eq_iff}
use kube_pet_node.Prelude.Split.{
  split, Lacks, join, split_lacking, split-append, join-split, split-Lacks,
}
use kube_pet_node.Pods.Coord.{PodCoord, parse_parts, parse_pod_key, key, container_key, file_name}

-- The names of Kubernetes objects are not empty and hold no underscore.
pub record IsValid (pc : PodCoord) : Type 0 where
  pub has_namespace : pc.namespace ≢ []
  pub has_name : pc.name ≢ []
  pub plain_namespace : Lacks b'_' pc.namespace
  pub plain_name : Lacks b'_' pc.name

parse_parts-valid :
    (pc : PodCoord) → IsValid pc → parse_parts (pc.namespace ∷ pc.name ∷ []) ≡ some pc
unfolding parse_parts
parse_parts-valid pc v =
    ground (arith, text_eq_iff pc.namespace [], text_eq_iff pc.name [], v.has_namespace, v.has_name)

parse-key : (pc : PodCoord) → IsValid pc → parse_pod_key (key pc) ≡ some pc
unfolding parse_pod_key key
parse-key pc v =
    rw (split-append b'_' pc.namespace pc.name v.plain_namespace)
      (rw (split_lacking b'_' pc.name v.plain_name) (parse_parts-valid pc v))

parse_parts_sound :
    (parts : List Text) (pc : PodCoord)
    → parse_parts parts ≡ some pc
    → All (Lacks b'_') parts
    → IsValid pc × (key pc ≡ join b'_' parts)
unfolding parse_parts key
parse_parts_sound [] pc h k = ground arith
parse_parts_sound (a ∷ []) pc h k = ground arith
parse_parts_sound (a ∷ b ∷ c ∷ parts) pc h k = ground arith
parse_parts_sound (a ∷ b ∷ []) pc h (k, (l, _)) = elim (Bool-cases (text_eq a [] || text_eq b [])) [
  | inl e ↦ ground arith
  | inr e ↦
      (let same : pc ≡ record { namespace = a; name = b } = ground arith in
        let a_ne : a ≢ [] = ground (arith, text_eq_iff a []) in
        let b_ne : b ≢ [] = ground (arith, text_eq_iff b []) in
        rw same (
          record { has_namespace = a_ne; has_name = b_ne; plain_namespace = k; plain_name = l },
          refl,
        ))
]

-- A key parses to coordinates exactly when these are valid and the key is theirs.
pub parse_pod_key_iff :
    (k : Text) (pc : PodCoord) → (parse_pod_key k ≡ some pc) ↔ (IsValid pc × (key pc ≡ k))
unfolding parse_pod_key
parse_pod_key_iff k pc = (
  λ h.
      let (valid, joined) = parse_parts_sound (split b'_' k) pc h (split-Lacks b'_' k) in
      (valid, joined ∙ join-split b'_' k),
  λ (valid, e). rw (← e) (parse-key pc valid),
)

-- Valid coordinates with one key are one.
pub key-injective : (a b : PodCoord) → IsValid a → IsValid b → key a ≡ key b → a ≡ b
key-injective a b v w e =
    let same : some a ≡ some b = sym (parse-key a v) ∙ ap parse_pod_key e ∙ parse-key b w in cc

-- The container name is the third part of a container's key, so that it is found again by splitting.
pub split-container_key :
    (pc : PodCoord) (name : Text)
    → IsValid pc
    → Lacks b'_' name
    → split b'_' (container_key pc name) ≡ pc.namespace ∷ pc.name ∷ name ∷ []
unfolding container_key
split-container_key pc name v l =
    rw (split-append b'_' pc.namespace (pc.name ++ (b'_' ∷ name)) v.plain_namespace)
      (rw (split-append b'_' pc.name name v.plain_name) (rw (split_lacking b'_' name l) refl))

pub file_name-eq : (c : PodCoord) → file_name c ≡ key c ++ str ".json"
unfolding file_name key
file_name-eq c = sym (append_assoc c.namespace (b'_' ∷ c.name) (str ".json"))
