-- ===== src/Pods/Provider/Containers.antt =====
-- controllers/pods/provider.go: the loop of `CreatePod` over the containers.
pub mod Retry
use kube_pet_node.Prelude.{
  ℕ, length, drop, ◌-◌, leb, List, [], ◌∷◌, Option, none, some, Bool, ◌&&◌, if◌then◌else◌, ◌≡◌,
  refl, ap, true, ◌∙◌, ◌++◌,
}
use kube_pet_node.Prelude.Text.{Text, str, text_eq}
use kube_pet_node.Prelude.Assoc.{Assoc, insert}
use kube_pet_node.Pods.Kube.{Pod, Container}
use kube_pet_node.Prelude.Result.{Result, ok, err}
use kube_pet_node.Pods.ImagePull.{Secret, pull_image}
use kube_pet_node.Pods.Convert.Spec.{SpecGenerator, convert_container_config}
use kube_pet_node.Prelude.Run.{Outcome, ◌>>=◌, ◌>>◌, give, fail, answer, unless_nil, outcome_of}
use kube_pet_node.Pods.Provider.Node.{Node, Answers, Creation, PodmanCall, M, call, the_pod}

-- strings.HasSuffix
unfoldable pub has_suffix : Text → Text → Bool
has_suffix s suffix =
    leb (length suffix) (length s) && text_eq (drop (length s - length suffix) s) suffix

-- Pull on the spot: the image is missing, and the container allows it.
unfoldable pub pulls_on_spot : Text → Container → Bool
unfolding has_suffix
pulls_on_spot e con_spec =
    has_suffix e (str "no such image") && text_eq con_spec.image_pull_policy (str "IfNotPresent")

pull_outcome : Option Text → Outcome (Unit {0})
pull_outcome none = Outcome.returned tt
pull_outcome (some e) = Outcome.failed e

created_outcome : Text → Option Text → Outcome Text
created_outcome id none = Outcome.returned id
created_outcome id (some e) = Outcome.failed e

unfoldable pub creation_outcome : Creation → Outcome Text
unfolding created_outcome
creation_outcome creation = created_outcome creation.id creation.error

module _ {Auths : Type 0} (unmarshal : Text → Result Auths) (marshal : Auths → Result Text)
    (a : Answers) where
  -- `PullImage`, whose requests are one call here.
  unfoldable pub pull_for : List Secret → Container → M (Unit {0})
  unfolding pull_outcome
  pull_for secrets con_spec n = (
    record n { calls = n.calls ++ (PodmanCall.image_pull con_spec.image ∷ []) },
    pull_outcome (pull_image unmarshal marshal a.pull con_spec.image secrets).0,
  )

  unfoldable pub spec_for : Container → Text → M SpecGenerator
  spec_for con_spec pod_id = do
    pod ← the_pod
    unless_nil (convert_container_config a.total_memory pod con_spec pod_id)

  -- The second attempt. `creation` is by now the report of the first attempt, which failed, and not
  -- that of the pod.
  unfoldable pub retry_container : List Secret → Container → Text → M Text
  unfolding pull_for spec_for creation_outcome
  retry_container secrets con_spec creation_id = do
    pull_for secrets con_spec
    spec ← spec_for con_spec creation_id
    call (PodmanCall.container_create spec)
    λ n. (n, creation_outcome (a.container_create 1 spec))

  -- The first attempt has returned this id and this error.
  unfoldable pub after_create : List Secret → Container → Text → Option Text → M Text
  unfolding retry_container
  after_create secrets con_spec id none = give id
  after_create secrets con_spec id (some e) =
      if pulls_on_spot e con_spec then retry_container secrets con_spec id else fail e

  unfoldable pub pull_first : List Secret → Container → M (Unit {0})
  unfolding pull_for
  pull_first secrets con_spec =
      if text_eq con_spec.image_pull_policy (str "Always")
      then pull_for secrets con_spec
      else give tt

  -- The body of the loop: the id of the container that was made.
  unfoldable pub create_container : List Secret → Text → Container → M Text
  unfolding pull_first spec_for after_create
  create_container secrets pod_id con_spec = do
    pull_first secrets con_spec
    spec ← spec_for con_spec pod_id
    call (PodmanCall.container_create spec)
    after_create secrets con_spec (a.container_create 0 spec).id (a.container_create 0 spec).error

  unfoldable pub create_containers :
      List Secret → Text → Assoc Text → List Container → M (Assoc Text)
  unfolding create_container
  create_containers secrets pod_id ids [] = give ids
  create_containers secrets pod_id ids (con_spec ∷ rest) = do
    id ← create_container secrets pod_id con_spec
    create_containers secrets pod_id (insert con_spec.name id ids) rest
