-- ===== src/Pods/Coord.antt =====
-- controllers/pods/coord.go: how a pod is named in podman and in the spec storage.
pub mod Keys
use kube_pet_node.Prelude.{List, [], ◌∷◌, ◌++◌, Option, none, some, Bool, not, ◌||◌, if◌then◌else◌}
use kube_pet_node.Prelude.Text.{Text, str, text_eq}
use kube_pet_node.Prelude.Split.{split}

pub record PodCoord : Type 0 where
  pub namespace : Text
  pub name : Text

parse_parts : List Text → Option PodCoord
parse_parts (namespace ∷ name ∷ []) =
    if text_eq namespace [] || text_eq name []
    then none
    else some (record { namespace = namespace; name = name })
parse_parts _ = none

-- `ok` is that there is a result; the coordinates of a failed parse are read nowhere.
unfoldable pub parse_pod_key : Text → Option PodCoord
unfolding parse_parts
parse_pod_key key = parse_parts (split b'_' key)

unfoldable pub key : PodCoord → Text
key pc = pc.namespace ++ (b'_' ∷ pc.name)

unfoldable pub file_name : PodCoord → Text
file_name pc = pc.namespace ++ (b'_' ∷ (pc.name ++ str ".json"))

unfoldable pub container_key : PodCoord → Text → Text
container_key pc container_name = pc.namespace ++ (b'_' ∷ (pc.name ++ (b'_' ∷ container_name)))
