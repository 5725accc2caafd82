-- ===== src/Firewall/Cluster.antt =====
-- The parts of the Kubernetes objects that the firewall reads: corev1.Service, corev1.Endpoints.
use kube_pet_node.Prelude.{ℕ, List, Option}
use kube_pet_node.Prelude.Text.{Text}

pub record ServicePort : Type 0 where
  pub name : Text
  pub protocol : Text
  pub port : ℕ

pub record Service : Type 0 where
  pub namespace : Text
  pub name : Text
  pub uid : Text
  pub service_type : Text
  pub cluster_ip : Text
  pub ports : List ServicePort

pub record Address : Type 0 where
  pub ip : Text
  pub node_name : Option Text

pub record SubsetPort : Type 0 where
  pub name : Text
  pub port : ℕ

pub record Subset : Type 0 where
  pub addresses : List Address
  pub ports : List SubsetPort

pub record Endpoints : Type 0 where
  pub namespace : Text
  pub name : Text
  pub subsets : List Subset
