-- ===== src/Pods/Stats.antt =====
-- controllers/pods/manager.go: `GetAllStats`. The figures of a container are a parameter.
use kube_pet_node.Prelude.{List, [], ◌∷◌, ◌++◌, Option, none, some, if◌then◌else◌}
use kube_pet_node.Prelude.Text.{Text, str, text_eq}
use kube_pet_node.Prelude.Assoc.{Assoc, lookup, insert}
use kube_pet_node.Pods.Kube.{Pod}
use kube_pet_node.Prelude.Result.{Result, ok, err}
use kube_pet_node.Pods.Manager.{RunningPod}

pub record ContainerStats (Figures : Type 0) : Type 0 where
  pub container_id : Text
  pub figures : Figures

pub record StatsReport (Figures : Type 0) : Type 0 where
  pub error : Text
  pub stats : List (ContainerStats Figures)

module _ {Figures : Type 0} where
  -- The reports by the container's id; a later one replaces an earlier one.
  unfoldable pub index_stats :
      Assoc (ContainerStats Figures)
      → List (ContainerStats Figures)
      → Assoc (ContainerStats Figures)
  index_stats found [] = found
  index_stats found (s ∷ rest) = index_stats (insert s.container_id s found) rest

  add_stats :
      Text
      → Option (ContainerStats Figures)
      → Assoc (ContainerStats Figures)
      → Assoc (ContainerStats Figures)
  add_stats name none stats = stats
  add_stats name (some s) stats = insert name s stats

  -- The containers of one pod; one without a report is left out.
  unfoldable pub pod_stats :
      Assoc (ContainerStats Figures)
      → Assoc (ContainerStats Figures)
      → Assoc Text
      → Assoc (ContainerStats Figures)
  unfolding add_stats
  pod_stats found stats [] = stats
  pod_stats found stats ((name, id) ∷ ids) =
      pod_stats found (add_stats name (lookup id found) stats) ids

  -- One entry for each known pod, which stands for the pointer to its metadata.
  unfoldable pub known_stats :
      Assoc (ContainerStats Figures)
      → Assoc RunningPod
      → List (Pod × Assoc (ContainerStats Figures))
  unfolding pod_stats
  known_stats found [] = []
  known_stats found ((k, known) ∷ rest) =
      (known.kube, pod_stats found [] known.container_ids) ∷ known_stats found rest

  unfoldable pub get_all_stats :
      Result (StatsReport Figures)
      → Assoc RunningPod
      → Result (List (Pod × Assoc (ContainerStats Figures)))
  unfolding known_stats index_stats
  get_all_stats (err e) known = err e
  get_all_stats (ok report) known =
      if text_eq report.error []
      then ok (known_stats (index_stats [] report.stats) known)
      else err (str "Container stats API gave error: " ++ report.error)
