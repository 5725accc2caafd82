-- ===== src/Pods/Provider/Delete.antt =====
-- controllers/pods/provider.go: `DeletePod`.
pub mod Laws
use kube_pet_node.Prelude.{
  ℕ, List, [], ◌∷◌, ◌++◌, Bool, true, false, if◌then◌else◌, ◌==◌, ◌≡◌, refl, Option, none, some,
  arith, ap,
}
use kube_pet_node.Prelude.Text.{Text, str, text_eq}
use kube_pet_node.Pods.Kube.{Pod, Condition}
use kube_pet_node.Prelude.Result.{Result, ok, err}
use kube_pet_node.Pods.Coord.{key}
use kube_pet_node.Pods.Storage.{coord_of}
use kube_pet_node.Pods.Manager.{PodManager, unregister_pod}
use kube_pet_node.Prelude.Run.{Outcome, ◌>>=◌, ◌>>◌, give, fail, answer, outcome_of}
use kube_pet_node.Pods.Provider.Node.{
  Node, Answers, StopAnswer, PodmanCall, M, call, the_pod, alter_pod, notify, is_static,
}

abbrev condition : Text → Text → Condition
condition name status = record { condition_type = name; status = status }

-- The assignments to the pod's status. The loop over the container statuses assigns to copies, and
-- leaves them as they are.
unfoldable pub stopped_pod : Pod → Pod
stopped_pod pod =
    let status = pod.status in
    record pod {
      status = record status {
        conditions =
            condition (str "Initialized") (str "True")
            ∷ condition (str "Ready") (str "False")
            ∷ condition (str "PodScheduled") (str "True")
            ∷ [];
      };
    }

module _ (a : Answers) where
  unregistered : Node → PodManager × Result (Unit {0}) → Node × Outcome (Unit {0})
  unregistered n (pm, r) = (record n { manager = pm }, outcome_of r)

  unfoldable pub unregister : M (Unit {0})
  unfolding unregistered
  unregister n = unregistered n (unregister_pod a.removed (coord_of n.pod) n.manager)

  -- After a successful stop.
  unfoldable pub clean_up : M (Unit {0})
  unfolding unregister
  clean_up = do
    alter_pod stopped_pod
    notify
    unregister
    pod ← the_pod
    call (PodmanCall.pod_rm (key (coord_of pod)))
    answer (a.pod_rm (key (coord_of pod)))
    answer (a.cleanup_volumes pod)

  -- A pod that podman does not have is only forgotten.
  after_stop : StopAnswer → M (Unit {0})
  unfolding clean_up
  after_stop StopAnswer.stopped = clean_up
  after_stop (StopAnswer.api_error status e) = if status == 404 then unregister else fail e
  after_stop (StopAnswer.stop_failed e) = fail e

  delete_steps : M (Unit {0})
  unfolding after_stop
  delete_steps = do
    pod ← the_pod
    call (PodmanCall.pod_stop (key (coord_of pod)))
    after_stop (a.pod_stop (key (coord_of pod)))

  unfoldable pub delete_pod : M (Unit {0})
  unfolding delete_steps
  delete_pod n = (if is_static n.pod then give tt else delete_steps) n
