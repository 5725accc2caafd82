-- ===== src/Identity/Node.antt =====
-- controllers/nodeidentity/controller.go: the node's object, made from the one that the cluster has.
use kube_pet_node.Prelude.{List, [], ◌∷◌, ◌++◌, length, drop, Option, none, some, if◌then◌else◌}
use kube_pet_node.Prelude.Text.{Text, str}
use kube_pet_node.Prelude.Assoc.{Assoc, insert}
use kube_pet_node.Prelude.Split.{starts_with}
use kube_pet_node.Prelude.Run.{Outcome, then_do}
use kube_pet_node.Identity.Provider.{NodeStatus, Host, new_pet_node_provider}

-- A map that is nil is none.
pub record ObjectMeta : Type 0 where
  pub name : Text
  pub labels : Option (Assoc Text)
  pub annotations : Option (Assoc Text)

pub record Taint : Type 0 where
  pub key : Text
  pub value : Text
  pub effect : Text

pub record Node : Type 0 where
  pub meta : ObjectMeta
  pub pod_cidr : Text
  pub pod_cidrs : List Text
  pub provider_id : Text
  pub taints : List Taint
  pub status : NodeStatus

-- What the cluster answers about the node.
pub data Existing : Type 0 where
  found : ObjectMeta → Existing
  not_found : Existing
  get_failed : Text → Existing

-- strings.TrimPrefix
unfoldable pub trim_prefix : Text → Text → Text
trim_prefix prefix s = if starts_with prefix s then drop (length prefix) s else s

unfoldable pub node_labels : Text → Text → Text → Assoc Text
unfolding trim_prefix
node_labels node_name goarch goos =
    (str "purpose", str "pet")
    ∷ (str "type", str "virtual-kubelet")
    ∷ (str "lifetime", str "persistent")
    ∷ (str "kubernetes.io/role", str "pet")
    ∷ (str "kubernetes.io/hostname", trim_prefix (str "pet-") node_name)
    ∷ (str "kubernetes.io/arch", goarch)
    ∷ (str "kubernetes.io/os", goos)
    ∷ []

unfoldable pub put_all : Assoc Text → Assoc Text → Assoc Text
put_all [] m = m
put_all ((k, v) ∷ entries) m = put_all entries (insert k v m)

-- The entries are set one by one, which panics on a nil map.
unfoldable pub set_all : Assoc Text → Option (Assoc Text) → Outcome (Assoc Text)
unfolding put_all
set_all entries none = Outcome.panicked
set_all entries (some m) = Outcome.returned (put_all entries m)

existing_meta : Text → Existing → Outcome ObjectMeta
existing_meta node_name (Existing.found meta) = Outcome.returned meta
existing_meta node_name Existing.not_found =
    Outcome.returned (record { name = node_name; labels = some []; annotations = some [] })
existing_meta node_name (Existing.get_failed e) = Outcome.failed e

first_cidr : List Text → Text
first_cidr [] = []
first_cidr (cidr ∷ cidrs) = cidr

-- The node that is handed to virtual-kubelet. The provider has the name that the object has by then.
unfoldable pub new_node_identity : Text → Text → Text → List Text → Host → Existing → Outcome Node
unfolding set_all existing_meta first_cidr
new_node_identity node_name goarch goos pod_cidrs host existing =
    then_do (existing_meta node_name existing) (λ meta.
      then_do (set_all (node_labels node_name goarch goos) meta.labels) (λ labels.
        then_do (set_all ((str "kubernetes.io/node.class", str "kube-pet") ∷ []) meta.annotations)
          (λ annotations.
            then_do (new_pet_node_provider (record host { name = meta.name })) (λ status.
              Outcome.returned (record {
                meta = record meta { labels = some labels; annotations = some annotations };
                pod_cidr = first_cidr pod_cidrs;
                pod_cidrs = pod_cidrs;
                provider_id = str "gce://kube-pet-node/kube-pet-node/" ++ node_name;
                taints =
                    record {
                      key = str "kubernetes.io/pet-node";
                      value = node_name;
                      effect = str "NoSchedule";
                    }
                    ∷ [];
                status = status;
              })))))
