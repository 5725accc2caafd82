-- ===== src/Pods/Provider/Examples.antt =====
-- Tests of the provider's calls and uses of their theorems at a sample pod.
use kube_pet_node.Prelude.{
  ◌==◌, if◌then◌else◌, [], ◌∷◌, ◌++◌, none, some, true, false, ◌≡◌, ◌↔◌, refl, arith,
}
use kube_pet_node.Prelude.Text.{Text, str, text_eq}
use kube_pet_node.Prelude.Assoc.{lookup}
use kube_pet_node.Prelude.Split.{split, Lacks}
use kube_pet_node.Pods.Kube.{Pod}
use kube_pet_node.Prelude.Result.{ok, err}
use kube_pet_node.Pods.Coord.{key, container_key}
use kube_pet_node.Pods.Storage.{done, wrote, coord_of}
use kube_pet_node.Pods.Manager.Invariant.{IsKept}
use kube_pet_node.Pods.ImagePull.{pull_image, pull_end, end_of, process_pull_stream}
use kube_pet_node.Pods.Convert.Spec.{SpecGenerator, convert_container_config}
use kube_pet_node.Pods.Convert.Spec.Names.{convert_container_config-name}
use kube_pet_node.Pods.Convert.Security.{security_config}
use kube_pet_node.Pods.Convert.Oom.{
  get_container_oom_score_adjust, score_for, is_critical, burstable_score, clamp_score,
}
use kube_pet_node.Pods.Samples.{web, app, web_json, coord_of-web-IsValid}
use kube_pet_node.Prelude.Run.{Outcome}
use kube_pet_node.Pods.Provider.Node.{Node, Answers, PodmanCall, StopAnswer, is_static}
use kube_pet_node.Pods.Provider.Containers.{create_container, has_suffix}
use kube_pet_node.Pods.Provider.Containers.Retry.{
  IsRetry, Retries, Retried, creations, create_container-retry,
}
use kube_pet_node.Pods.Provider.Create.{create_pod}
use kube_pet_node.Pods.Provider.Create.Keeps.{create_pod-IsKept}
use kube_pet_node.Pods.Provider.Delete.{delete_pod}
use kube_pet_node.Pods.Provider.Delete.Laws.{delete_pod-stopped}

abbrev web_answers : Answers
web_answers = record {
  json = web_json;
  total_memory = 4000000;
  cni_net = str "kube-pet";
  opened = λ k. done;
  written = λ k. wrote;
  removed = done;
  create_pod_volumes = λ pod. ok tt;
  cleanup_volumes = λ pod. ok tt;
  get_secret = λ namespace name. err (str "not found");
  pull = λ image auth. ok (record { stream = []; error = []; images = str "i1" ∷ [] } ∷ []);
  pod_create = λ generator. ok (str "p1");
  pod_inspect = λ id. ok (str "c0");
  container_create = λ k spec.
      if k == 0
      then record { id = []; error = some (str "no such image") }
      else record { id = str "c1"; error = none };
  container_inspect = λ id. err (str "gone");
  pod_start = λ id. ok tt;
  pod_stop = λ pod_key. StopAnswer.stopped;
  pod_rm = λ pod_key. ok tt;
}

abbrev web_node : Node
web_node = record {
  pod = web;
  manager = record { spec_storage = record { files = [] }; known_pods = [] };
  notified = [];
  calls = [];
}

web_spec :
    (id : Text) → (spec : SpecGenerator) × (convert_container_config 4000000 web app id ≡ some spec)
unfolding convert_container_config security_config get_container_oom_score_adjust score_for
    is_critical burstable_score clamp_score text_eq str
web_spec id = (_, refl)

app-plain : Lacks b'_' app.name
unfolding str
app-plain = ground arith

convert_container_config-name_example :
    ((web_spec (str "p1")).0.pod ≡ str "p1")
    × ((web_spec (str "p1")).0.name ≡ container_key (coord_of web) app.name)
    × (split b'_' (web_spec (str "p1")).0.name ≡ web.namespace ∷ web.name ∷ app.name ∷ [])
convert_container_config-name_example =
    convert_container_config-name 4000000 web app (str "p1") (web_spec (str "p1")).0
      (web_spec (str "p1")).1 coord_of-web-IsValid app-plain

lazy : text_eq app.image_pull_policy (str "IfNotPresent") ≡ true
unfolding text_eq str
lazy = refl

missing : has_suffix (str "no such image") (str "no such image") ≡ true
unfolding has_suffix text_eq str
missing = refl

pulled : (pull_image {Auths = Text} ok ok web_answers.pull (str "nginx") []).0 ≡ none
unfolding pull_image pull_end end_of process_pull_stream text_eq str
pulled = refl

app_retries :
    IsRetry {Auths = Text} ok ok web_answers []
      (str "p1")
      app
      web
      (web_spec (str "p1")).0
      (web_spec []).0
      (str "no such image")
app_retries = ((web_spec (str "p1")).1, refl, missing, lazy, pulled, (web_spec []).1)

create_container-retry_example :
    ((creations
          (create_container {Auths = Text} ok ok web_answers [] (str "p1") app web_node).0.calls
        ≡ 2)
      ↔ Retries {Auths = Text} ok ok web_answers [] (str "p1") app web_node)
    × (Retries {Auths = Text} ok ok web_answers [] (str "p1") app web_node
        ↔ Retried {Auths = Text} ok ok web_answers [] (str "p1") app web_node)
create_container-retry_example =
    create_container-retry {Auths = Text} ok ok web_answers [] (str "p1") app web_node

-- The container is asked for a second time, for no pod.
asked_again :
    creations (create_container {Auths = Text} ok ok web_answers [] (str "p1") app web_node).0.calls
    ≡ 2
asked_again =
    (create_container-retry {Auths = Text} ok ok web_answers [] (str "p1") app web_node).0.1
      ((web_spec (str "p1")).0, (web_spec []).0, str "no such image", app_retries)

web_moves : is_static web ≡ false
unfolding is_static lookup
web_moves = refl

delete_pod-stopped_example :
    (after : Node) × (delete_pod web_answers web_node ≡ (after, Outcome.returned tt))
    × (after.calls
        ≡ ([] ++ (PodmanCall.pod_stop (key (coord_of web)) ∷ []))
          ++ (PodmanCall.pod_rm (key (coord_of web)) ∷ []))
    × (lookup (key (coord_of web)) after.manager.known_pods ≡ none)
    × ((told : Pod) × (after.notified ≡ [] ++ (told ∷ []))
        × (told.status.phase ≡ web.status.phase)
        × (told.status.container_statuses ≡ web.status.container_statuses))
delete_pod-stopped_example = delete_pod-stopped web_answers web_node web_moves refl refl refl refl

no_pods : IsKept web_node.manager
unfolding lookup
no_pods = record { at = λ k r e. cc }

create_pod-IsKept_example : IsKept (create_pod {Auths = Text} ok ok web_answers web_node).0.manager
create_pod-IsKept_example = create_pod-IsKept {Auths = Text} ok ok web_answers web_node no_pods
