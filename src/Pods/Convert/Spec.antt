-- ===== src/Pods/Convert/Spec.antt =====
-- controllers/pods/converter.go: `ConvertContainerConfig`. The memory of the machine, from
-- pbnjay/memory, is an argument.
pub mod Names
use kube_pet_node.Prelude.{ℕ, List, [], ◌∷◌, ◌++◌, Option, none, some, Bool, ◌==◌, if◌then◌else◌}
use kube_pet_node.Prelude.Text.{Text, str}
use kube_pet_node.Prelude.Int.{ℤ}
use kube_pet_node.Prelude.Assoc.{Assoc, lookup, insert}
use kube_pet_node.Pods.Kube.{Pod, Container, EnvVar, Resources}
use kube_pet_node.Pods.Coord.{key}
use kube_pet_node.Pods.Storage.{coord_of}
use kube_pet_node.Pods.Convert.Cpu.{milli_cpu_to_shares, milli_cpu_to_quota, cpu_period}
use kube_pet_node.Pods.Convert.Oom.{get_container_oom_score_adjust}
use kube_pet_node.Pods.Convert.Security.{ContainerSecurityConfig, security_config}
use kube_pet_node.Pods.Convert.Mounts.{Mount, NamedVolume, Attached, attach_all}

-- The members of podman.LinuxResources that are set.
pub record LinuxResources : Type 0 where
  pub cpu_shares : ℕ
  pub memory_limit : Option ℕ
  pub cpu_period : Option ℕ
  pub cpu_quota : Option ℕ

-- The members of podman.SpecGenerator that are set.
pub record SpecGenerator : Type 0 where
  pub name : Text
  pub namespace : Text
  pub pod : Text
  pub entrypoint : List Text
  pub command : List Text
  pub env : Assoc Text
  pub terminal : Bool
  pub stdin : Bool
  pub labels : Assoc Text
  pub log_driver : Text
  pub systemd : Text
  pub image : Text
  pub mounts : List Mount
  pub volumes : List NamedVolume
  pub work_dir : Text
  pub security : ContainerSecurityConfig
  pub resource_limits : LinuxResources
  pub oom_score_adj : ℤ
  pub cgroups_mode : Text
  pub health_test : List Text

-- The loop over the variables: a later one with the same name wins, and a dynamic one has no value
-- yet.
unfoldable pub env_from : Assoc Text → List EnvVar → Assoc Text
env_from env [] = env
env_from env (v ∷ vs) =
    env_from (insert v.name (if v.is_dynamic then str "TODO" else v.value) env) vs

abbrev or_else : Option Text → Text → Text
or_else none text = text
or_else (some value) text = value

-- The annotation for the container, or else the pod's, or else the empty text.
unfoldable pub is_systemd : Assoc Text → Text → Text
is_systemd annotations name =
    or_else (lookup (str "vk.podman.io/systemd." ++ name) annotations)
      (or_else (lookup (str "vk.podman.io/is-systemd") annotations) [])

unfoldable pub linux_resources : Resources → LinuxResources
linux_resources r = record {
  cpu_shares = milli_cpu_to_shares r.request_milli_cpu;
  memory_limit = if r.limit_memory == 0 then none else some r.limit_memory;
  cpu_period = if r.limit_milli_cpu == 0 then none else some cpu_period;
  cpu_quota =
      if r.limit_milli_cpu == 0
      then none
      else some (milli_cpu_to_quota r.limit_milli_cpu cpu_period);
}

spec_with :
    Pod → Container → Text → Option ContainerSecurityConfig → Option ℤ → Option SpecGenerator
unfolding linux_resources is_systemd env_from
spec_with pod con_spec pod_id none oom = none
spec_with pod con_spec pod_id (some security) none = none
spec_with pod con_spec pod_id (some security) (some oom) =
    let attached : Attached = attach_all pod con_spec.volume_mounts in
    some (record {
      name = key (coord_of pod) ++ (b'_' ∷ con_spec.name);
      namespace = str "kube-pet";
      pod = pod_id;
      entrypoint = con_spec.command;
      command = con_spec.args;
      env = env_from [] con_spec.env;
      terminal = con_spec.tty;
      stdin = con_spec.stdin;
      labels = (str "k8s-name", con_spec.name) ∷ (str "k8s-type", str "standard") ∷ [];
      log_driver = str "k8s-file";
      systemd = is_systemd pod.annotations con_spec.name;
      image = con_spec.image;
      mounts = attached.mounts;
      volumes = attached.volumes;
      work_dir = con_spec.working_dir;
      security = security;
      resource_limits = linux_resources con_spec.resources;
      oom_score_adj = oom;
      cgroups_mode = str "enabled";
      health_test = str "NONE" ∷ [];
    })

-- `none` is a panic, on a nil priority or security context of the pod.
unfoldable pub convert_container_config : ℕ → Pod → Container → Text → Option SpecGenerator
unfolding spec_with
convert_container_config total_memory pod con_spec pod_id =
    spec_with pod con_spec pod_id
      (security_config con_spec.security_context pod.spec.security_context)
      (get_container_oom_score_adjust pod con_spec total_memory)
