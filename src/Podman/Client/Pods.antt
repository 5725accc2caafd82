-- ===== src/Podman/Client/Pods.antt =====
-- pkg/podman/client-pod.go: the requests on pods. The reading of each report is an argument.
pub mod Stop
use kube_pet_node.Prelude.{ℕ, List, [], ◌∷◌, ◌++◌, Bool, ◌==◌, if◌then◌else◌}
use kube_pet_node.Prelude.Text.{Text, str}
use kube_pet_node.Prelude.Result.{Result, ok}
use kube_pet_node.Podman.Client.{
  Transport, Reply, Failure, ApiError, perform_get, perform_post, perform_delete, with_name, forced,
}

pub record PodActionReport : Type 0 where
  pub id : Text
  pub errs : List Text

-- `json.Marshal(nil)`
abbrev pub null : Result Text
null = ok (str "null")

abbrev pub pod_path : Text → Text → Text
pod_path encoded rest = str "/libpod/pods/" ++ (encoded ++ rest)

abbrev pub already_stopped : PodActionReport
already_stopped = record { id = []; errs = str "Already Stopped" ∷ [] }

module _ (t : Transport) where
  module _ {A : Type 0} (decode : Text → Result A) where
    unfoldable pub pod_create : Result Text → Reply A
    pod_create spec = perform_post t (str "/libpod/pods/create") spec decode

    unfoldable pub pod_inspect : Text → Reply A
    pod_inspect name =
        with_name t name (λ encoded. perform_get t (pod_path encoded (str "/json")) decode)

    unfoldable pub pod_ps : Reply A
    pod_ps = perform_get t (str "/libpod/pods/json") decode

    unfoldable pub pod_restart : Text → Reply A
    pod_restart name =
        with_name t name (λ encoded. perform_post t (pod_path encoded (str "/restart")) null decode)

    unfoldable pub pod_rm : Text → Bool → Reply A
    pod_rm name force =
        with_name t name
          (λ encoded. perform_delete t (str "/libpod/pods/" ++ forced t force encoded) decode)

    unfoldable pub pod_start : Text → Reply A
    pod_start name =
        with_name t name (λ encoded. perform_post t (pod_path encoded (str "/start")) null decode)

    unfoldable pub pod_stats : Reply A
    pod_stats = perform_get t (str "/libpod/pods/stats") decode

  -- An API error of status 304 is no error.
  stop_reply : Reply PodActionReport → Reply PodActionReport
  stop_reply (Reply.failure (Failure.api e)) =
      if e.status == 304 then Reply.reply already_stopped else Reply.failure (Failure.api e)
  stop_reply (Reply.failure (Failure.other e)) = Reply.failure (Failure.other e)
  stop_reply (Reply.reply out) = Reply.reply out
  stop_reply Reply.panics = Reply.panics

  unfoldable pub pod_stop : (Text → Result PodActionReport) → Text → Reply PodActionReport
  unfolding stop_reply
  pod_stop decode name =
      with_name t name
        (λ encoded. stop_reply (perform_post t (pod_path encoded (str "/stop")) null decode))
