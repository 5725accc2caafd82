-- ===== src/Volumes/Projected.antt =====
-- controllers/volumes/vol-projected.go
pub mod Files
use kube_pet_node.Prelude.{
  ℕ, List, [], ◌∷◌, ◌++◌, map, Option, none, some, Bool, true, false, if◌then◌else◌,
}
use kube_pet_node.Prelude.Text.{Text, str, text_eq, format_uint}
use kube_pet_node.Prelude.Assoc.{Assoc, insert, keys}
use kube_pet_node.Prelude.Result.{Result, ok, err}
use kube_pet_node.Prelude.Run.{◌>>=◌, ◌>>◌, give, fail, answer}
use kube_pet_node.Pods.Kube.{Pod, ServiceAccountToken, ProjectedVolumeSource}
use kube_pet_node.Volumes.Archive.{Entry}
use kube_pet_node.Volumes.Runtime.{Answers, M, create_runtime_volume}
use kube_pet_node.Volumes.Links.{path_link, data_path, current_link, default_mode}
use kube_pet_node.Volumes.Secret.{extract}

unfoldable pub account_name : Pod → Text
account_name pod =
    if text_eq pod.spec.service_account_name []
    then str "default"
    else pod.spec.service_account_name

-- The files that are projected, by path, in any order.
unfoldable pub projected_entries : Answers → ℕ → Text → Assoc Text → List Entry
projected_entries a mode res_version paths =
    map (λ (kv : Text × Text). Entry.file (data_path res_version kv.0) mode kv.1)
      (a.file_order paths)
    ++ (current_link res_version ∷ map path_link (keys (a.link_order paths)))

module _ (a : Answers) where
  -- The loop over the sources, which asks for a token for each that is one.
  unfoldable pub token_paths : Pod → Assoc Text → List (Option ServiceAccountToken) → M (Assoc Text)
  unfolding account_name
  token_paths pod paths [] = give paths
  token_paths pod paths (none ∷ sources) = token_paths pod paths sources
  token_paths pod paths (some source ∷ sources) = do
    token ← answer (a.create_token pod.namespace (account_name pod) source)
    token_paths pod (insert source.path token paths) sources

  abbrev mode_of : Option ℕ → ℕ
  mode_of none = default_mode
  mode_of (some mode) = mode

  unfoldable pub create_projected_volume : Pod → Text → ProjectedVolumeSource → M (Unit {0})
  unfolding token_paths
  create_projected_volume pod vol_name source = do
    paths ← token_paths pod [] source.sources
    vol_path ← create_runtime_volume a pod.uid (str "projected") vol_name
    extract a vol_path
        (projected_entries a (mode_of source.default_mode) (format_uint a.now_unix) paths)
