-- ===== src/Pods/Provider/Node.antt =====
-- controllers/pods/provider.go: the state that the provider's calls work on, and their steps.
use kube_pet_node.Prelude.{ℕ, List, [], ◌∷◌, ◌++◌, Option, none, some, Bool, false}
use kube_pet_node.Prelude.Text.{Text, str, text_eq}
use kube_pet_node.Prelude.Assoc.{Assoc, lookup}
use kube_pet_node.Pods.Kube.{Pod}
use kube_pet_node.Prelude.Result.{Result}
use kube_pet_node.Prelude.Run.{Outcome, Run, outcome_of}
use kube_pet_node.Pods.Coord.{PodCoord, key}
use kube_pet_node.Pods.Storage.{Json, Answer, WriteAnswer, coord_of}
use kube_pet_node.Pods.Manager.{RunningPod, PodManager, register_pod, put_known}
use kube_pet_node.Pods.ImagePull.{Secret, ImagePullReport}
use kube_pet_node.Pods.Convert.Network.{PodSpecGenerator}
use kube_pet_node.Pods.Convert.Spec.{SpecGenerator}

-- The requests to podman, as far as they say what runs; a pull of an image is one, however many
-- credentials it tries.
pub data PodmanCall : Type 0 where
  pod_create : PodSpecGenerator → PodmanCall
  container_create : SpecGenerator → PodmanCall
  image_pull : Text → PodmanCall
  pod_start pod_stop pod_rm : Text → PodmanCall

-- The members of podman.InspectContainerData that are read; the addresses by network.
pub record ContainerInspect : Type 0 where
  pub restart_count : ℕ
  pub image_name : Text
  pub image : Text
  pub networks : Assoc Text

-- What `ContainerCreate` returns: the id in the report that it points to, and the error, if any.
pub record Creation : Type 0 where
  pub id : Text
  pub error : Option Text

-- `PodStop` fails with the status of an ApiError, or otherwise.
pub data StopAnswer : Type 0 where
  stopped : StopAnswer
  api_error : ℕ → Text → StopAnswer
  stop_failed : Text → StopAnswer

pub record Answers : Type 0 where
  pub json : Json
  pub total_memory : ℕ
  pub cni_net : Text
  -- the answers of the file system to each registration of a pod, by its number
  pub opened : ℕ → Answer
  pub written : ℕ → WriteAnswer
  pub removed : Answer
  pub create_pod_volumes : Pod → Result (Unit {0})
  pub cleanup_volumes : Pod → Result (Unit {0})
  pub get_secret : Text → Text → Result Secret
  pub pull : Text → Option Text → Result (List ImagePullReport)
  pub pod_create : PodSpecGenerator → Result Text
  pub pod_inspect : Text → Result Text
  -- the number counts the attempts for one container
  pub container_create : ℕ → SpecGenerator → Creation
  pub container_inspect : Text → Result ContainerInspect
  pub pod_start : Text → Result (Unit {0})
  pub pod_stop : Text → StopAnswer
  pub pod_rm : Text → Result (Unit {0})

-- `pod` is what the argument of the call points to.
pub record Node : Type 0 where
  pub pod : Pod
  pub manager : PodManager
  pub notified : List Pod
  pub calls : List PodmanCall

abbrev pub M : Type 0 → Type 0
M = Run Node

abbrev pub call : PodmanCall → M (Unit {0})
call c n = (record n { calls = n.calls ++ (c ∷ []) }, Outcome.returned tt)

abbrev pub the_pod : M Pod
the_pod n = (n, Outcome.returned n.pod)

abbrev pub on_manager : (PodManager → PodManager) → M (Unit {0})
on_manager f n = (record n { manager = f n.manager }, Outcome.returned tt)

abbrev pub alter_pod : (Pod → Pod) → M (Unit {0})
alter_pod f n = (record n { pod = f n.pod }, Outcome.returned tt)

-- From its registration on, the known pod is a pointer to the pod of the call, so that it changes with it.
unfoldable pub refresh : Pod → Option RunningPod → PodManager → PodManager
refresh pod none pm = pm
refresh pod (some r) pm = put_known (coord_of pod) (record r { kube = pod }) pm

unfoldable pub shared : Pod → PodManager → PodManager
unfolding refresh
shared pod pm = refresh pod (lookup (key (coord_of pod)) pm.known_pods) pm

unfoldable pub change_pod : (Pod → Pod) → M (Unit {0})
unfolding shared
change_pod f n =
    (record n { pod = f n.pod; manager = shared (f n.pod) n.manager }, Outcome.returned tt)

-- `d.podNotifier(pod)`
abbrev pub notify : M (Unit {0})
notify n = (record n { notified = n.notified ++ (n.pod ∷ []) }, Outcome.returned tt)

unfoldable pub registration : Node → PodManager × Result PodCoord → Node × Outcome PodCoord
registration n (pm, r) = (record n { manager = pm }, outcome_of r)

-- `d.manager.RegisterPod(pod)`, the call's number first.
unfoldable pub register : Answers → ℕ → M PodCoord
unfolding registration
register a k n = registration n (register_pod a.json (a.opened k) (a.written k) n.pod n.manager)

unfoldable pub ignored : Node × Outcome PodCoord → Node × Outcome (Unit {0})
ignored (n, o) = (n, Outcome.returned tt)

-- The same, with its error passed over.
unfoldable pub register_anyway : Answers → ℕ → M (Unit {0})
unfolding ignored register
register_anyway a k n = ignored (register a k n)

is_file : Option Text → Bool
is_file none = false
is_file (some source) = text_eq source (str "file")

-- A pod that the node reads from a file.
unfoldable pub is_static : Pod → Bool
unfolding is_file
is_static pod = is_file (lookup (str "kubernetes.io/config.source") pod.annotations)
