-- ===== src/Pods/Provider/Delete/Laws.antt =====
-- controllers/pods/provider.go: what a successful `DeletePod` leaves.
use kube_pet_node.Prelude.{[], ◌∷◌, ◌++◌, none, false, ◌≡◌, refl, arith}
use kube_pet_node.Prelude.Text.{text_eq_iff}
use kube_pet_node.Prelude.Assoc.{lookup, lookup-delete}
use kube_pet_node.Pods.Kube.{Pod}
use kube_pet_node.Prelude.Result.{ok}
use kube_pet_node.Pods.Coord.{key}
use kube_pet_node.Pods.Storage.{coord_of, done, remove_pod}
use kube_pet_node.Pods.Manager.{unregister_pod}
use kube_pet_node.Prelude.Run.{Outcome, ◌>>=◌}
use kube_pet_node.Pods.Provider.Node.{Node, Answers, StopAnswer, PodmanCall, is_static}
use kube_pet_node.Pods.Provider.Delete.{
  delete_pod, delete_steps, after_stop, clean_up, unregister, unregistered, stopped_pod,
}

-- When podman stops a pod that is not static and every other call succeeds, `DeletePod` stops and
-- removes the pod by its key and succeeds, the pod is known no more, and one notice is sent, of a
-- pod with the phase and the container statuses that it had before.
pub delete_pod-stopped :
    (a : Answers) (n : Node)
    → is_static n.pod ≡ false
    → a.pod_stop (key (coord_of n.pod)) ≡ StopAnswer.stopped
    → a.removed ≡ done
    → a.pod_rm (key (coord_of n.pod)) ≡ ok tt
    → a.cleanup_volumes (stopped_pod n.pod) ≡ ok tt
    → (after : Node) × (delete_pod a n ≡ (after, Outcome.returned tt))
      × (after.calls
          ≡ (n.calls ++ (PodmanCall.pod_stop (key (coord_of n.pod)) ∷ []))
            ++ (PodmanCall.pod_rm (key (coord_of n.pod)) ∷ []))
      × (lookup (key (coord_of n.pod)) after.manager.known_pods ≡ none)
      × ((told : Pod) × (after.notified ≡ n.notified ++ (told ∷ []))
          × (told.status.phase ≡ n.pod.status.phase)
          × (told.status.container_statuses ≡ n.pod.status.container_statuses))
unfolding delete_pod delete_steps after_stop clean_up unregister unregistered unregister_pod
    remove_pod stopped_pod coord_of ◌>>=◌
delete_pod-stopped a n moving stop gone rm cleaned = (
  record {
    pod = stopped_pod n.pod;
    manager = (unregister_pod done (coord_of n.pod) n.manager).0;
    notified = n.notified ++ (stopped_pod n.pod ∷ []);
    calls =
        (n.calls ++ (PodmanCall.pod_stop (key (coord_of n.pod)) ∷ []))
        ++ (PodmanCall.pod_rm (key (coord_of n.pod)) ∷ []);
  },
  rw (moving, stop, gone, rm, cleaned) refl,
  refl,
  ground (
    arith,
    lookup-delete (key (coord_of n.pod)) (key (coord_of n.pod)) n.manager.known_pods,
    text_eq_iff (key (coord_of n.pod)) (key (coord_of n.pod)),
  ),
  (stopped_pod n.pod, refl, refl, refl),
)
