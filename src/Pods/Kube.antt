-- ===== src/Pods/Kube.antt =====
-- The parts of corev1.Pod that controllers/pods reads and writes.
use kube_pet_node.Prelude.{ℕ, List, Option, Bool}
use kube_pet_node.Prelude.Text.{Text}
use kube_pet_node.Prelude.Int.{ℤ}
use kube_pet_node.Prelude.Assoc.{Assoc}

pub record EnvVar : Type 0 where
  pub name : Text
  pub value : Text
  -- whether `ValueFrom` is set
  pub is_dynamic : Bool

pub record VolumeMount : Type 0 where
  pub name : Text
  pub mount_path : Text
  pub sub_path : Text
  pub read_only : Bool

pub record KeyToPath : Type 0 where
  pub key : Text
  pub path : Text
  pub mode : Option ℕ

-- `items` is none for a nil slice.
pub record SecretVolumeSource : Type 0 where
  pub secret_name : Text
  pub items : Option (List KeyToPath)
  pub default_mode : Option ℕ
  pub optional : Option Bool

pub record ServiceAccountToken : Type 0 where
  pub audience : Text
  pub expiration_seconds : Option ℕ
  pub path : Text

-- A source that is not a service account's token is none.
pub record ProjectedVolumeSource : Type 0 where
  pub sources : List (Option ServiceAccountToken)
  pub default_mode : Option ℕ

-- corev1.VolumeSource by its member that is set; an EmptyDir with its medium.
pub data VolumeSource : Type 0 where
  host_path : Text → VolumeSource
  empty_dir : Text → VolumeSource
  secret : SecretVolumeSource → VolumeSource
  projected : ProjectedVolumeSource → VolumeSource
  other : VolumeSource

pub record Volume : Type 0 where
  pub name : Text
  pub source : VolumeSource

pub record SelinuxOptions : Type 0 where
  pub user : Text
  pub role : Text
  pub level : Text
  pub selinux_type : Text

-- User and group numbers are not negative.
pub record SecurityContext : Type 0 where
  pub privileged : Option Bool
  pub run_as_user : Option ℕ
  pub run_as_group : Option ℕ
  pub cap_add : List Text
  pub cap_drop : List Text
  pub selinux_options : Option SelinuxOptions
  pub allow_privilege_escalation : Option Bool
  pub read_only_root_filesystem : Option Bool

pub record PodSecurityContext : Type 0 where
  pub run_as_user : Option ℕ
  pub run_as_group : Option ℕ

-- Quantities by `MilliValue()` and `Value()`; one that is not set is zero.
pub record Resources : Type 0 where
  pub request_milli_cpu : ℕ
  pub request_memory : ℕ
  pub limit_milli_cpu : ℕ
  pub limit_memory : ℕ

pub record Container : Type 0 where
  pub name : Text
  pub image : Text
  pub image_pull_policy : Text
  pub command : List Text
  pub args : List Text
  pub env : List EnvVar
  pub tty : Bool
  pub stdin : Bool
  pub working_dir : Text
  pub resources : Resources
  pub volume_mounts : List VolumeMount
  pub security_context : Option SecurityContext

pub record PodSpec : Type 0 where
  pub containers : List Container
  pub volumes : List Volume
  pub host_network : Bool
  pub share_process_namespace : Option Bool
  pub dns_policy : Text
  pub priority : Option ℤ
  pub security_context : Option PodSecurityContext
  pub image_pull_secrets : List Text
  pub service_account_name : Text

pub record Condition : Type 0 where
  pub condition_type : Text
  pub status : Text

pub data ContainerState : Type 0 where
  waiting : Text → ContainerState
  running terminated : ContainerState

pub record ContainerStatus : Type 0 where
  pub name : Text
  pub image : Text
  pub ready : Bool
  pub restart_count : ℕ
  pub container_id : Text
  pub image_id : Text
  pub state : ContainerState

pub record PodStatus : Type 0 where
  pub phase : Text
  pub qos_class : Text
  pub conditions : List Condition
  pub container_statuses : List ContainerStatus
  pub pod_ip : Text

pub record Pod : Type 0 where
  pub namespace : Text
  pub name : Text
  pub uid : Text
  pub annotations : Assoc Text
  pub spec : PodSpec
  pub status : PodStatus
