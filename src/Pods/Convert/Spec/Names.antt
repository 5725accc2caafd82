-- ===== src/Pods/Convert/Spec/Names.antt =====
-- controllers/pods/converter.go: how podman's names lead back to the pod.
use kube_pet_node.Prelude.{
  ℕ, [], ◌∷◌, ◌++◌, append_assoc, Option, none, some, some-injective, ◌≡◌, refl, sym, ap, ◌∙◌,
}
use kube_pet_node.Prelude.Text.{Text}
use kube_pet_node.Prelude.Int.{ℤ}
use kube_pet_node.Prelude.Split.{split, Lacks}
use kube_pet_node.Pods.Kube.{Pod, Container}
use kube_pet_node.Pods.Coord.{PodCoord, key, container_key, parse_pod_key}
use kube_pet_node.Pods.Coord.Keys.{IsValid, parse_pod_key_iff, split-container_key}
use kube_pet_node.Pods.Storage.{coord_of}
use kube_pet_node.Pods.Convert.Network.{convert_pod_config}
use kube_pet_node.Pods.Convert.Security.{ContainerSecurityConfig, security_config}
use kube_pet_node.Pods.Convert.Oom.{get_container_oom_score_adjust}
use kube_pet_node.Pods.Convert.Spec.{SpecGenerator, convert_container_config, spec_with}

name-eq : (coord : PodCoord) (name : Text) → key coord ++ (b'_' ∷ name) ≡ container_key coord name
unfolding key container_key
name-eq coord name = append_assoc coord.namespace (b'_' ∷ coord.name) (b'_' ∷ name)

spec_with-names :
    (pod : Pod) (con : Container) (pod_id : Text) (security : Option ContainerSecurityConfig)
    (oom : Option ℤ) (spec : SpecGenerator)
    → spec_with pod con pod_id security oom ≡ some spec
    → (spec.name ≡ key (coord_of pod) ++ (b'_' ∷ con.name)) × (spec.pod ≡ pod_id)
unfolding spec_with
spec_with-names pod con pod_id none oom spec e = cc
spec_with-names pod con pod_id (some security) none spec e = cc
spec_with-names pod con pod_id (some security) (some oom) spec e =
    let same = some-injective (sym e) in
    (ap (λ (s : SpecGenerator). s.name) same, ap (λ (s : SpecGenerator). s.pod) same)

-- For a pod with valid coordinates and a container whose name has no underscore, a configuration
-- that is made is for the pod whose id is given, under the container key, whose three parts are
-- the pod's namespace, its name and the container's.
pub convert_container_config-name :
    (total_memory : ℕ) (pod : Pod) (con : Container) (pod_id : Text) (spec : SpecGenerator)
    → convert_container_config total_memory pod con pod_id ≡ some spec
    → IsValid (coord_of pod)
    → Lacks b'_' con.name
    → (spec.pod ≡ pod_id)
      × (spec.name ≡ container_key (coord_of pod) con.name)
      × (split b'_' spec.name ≡ pod.namespace ∷ pod.name ∷ con.name ∷ [])
unfolding convert_container_config coord_of
convert_container_config-name total_memory pod con pod_id spec e v l =
    let (named, placed) =
      spec_with-names pod con pod_id
        (security_config con.security_context pod.spec.security_context)
        (get_container_oom_score_adjust pod con total_memory) spec e in
    let keyed : spec.name ≡ container_key (coord_of pod) con.name =
      named ∙ name-eq (coord_of pod) con.name in
    (placed, keyed, ap (split b'_') keyed ∙ split-container_key (coord_of pod) con.name v l)

-- The name in podman of a pod with valid coordinates parses to these coordinates.
pub convert_pod_config-name :
    (pod : Pod) (cluster_dns cni_net : Text)
    → IsValid (coord_of pod)
    → parse_pod_key (convert_pod_config pod cluster_dns cni_net).name ≡ some (coord_of pod)
unfolding convert_pod_config
convert_pod_config-name pod cluster_dns cni_net v =
    (parse_pod_key_iff (key (coord_of pod)) (coord_of pod)).1 (v, refl)
