-- ===== src/Pods/Convert/Security.antt =====
-- controllers/pods/converter.go: the security part of `ConvertContainerConfig`.
use kube_pet_node.Prelude.{
  ℕ, List, [], ◌∷◌, ◌++◌, Option, none, some, Bool, false, not, if◌then◌else◌,
}
use kube_pet_node.Prelude.Text.{Text, str, text_eq, format_uint}
use kube_pet_node.Pods.Kube.{SelinuxOptions, SecurityContext, PodSecurityContext}

-- The members of podman.ContainerSecurityConfig that are set.
pub record ContainerSecurityConfig : Type 0 where
  pub privileged : Bool
  pub user : Text
  pub groups : List Text
  pub cap_add : List Text
  pub cap_drop : List Text
  pub selinux_opts : List Text
  pub no_new_privileges : Bool
  pub read_only_filesystem : Bool

abbrev pub no_security : ContainerSecurityConfig
no_security = record {
  privileged = false;
  user = [];
  groups = [];
  cap_add = [];
  cap_drop = [];
  selinux_opts = [];
  no_new_privileges = false;
  read_only_filesystem = false;
}

-- The container's own id, or else the pod's. A pod without a security context is a nil pointer, whose
-- use panics.
unfoldable pub run_as : Option ℕ → Option (Option ℕ) → Option (Option Text)
run_as (some id) pod = some (some (format_uint id))
run_as none none = none
run_as none (some none) = some none
run_as none (some (some id)) = some (some (format_uint id))

unfoldable pub selinux_opt : Text → Text → List Text
selinux_opt label value = if text_eq value [] then [] else (label ++ value) ∷ []

unfoldable pub selinux_opts_of : Option SelinuxOptions → List Text
selinux_opts_of none = []
selinux_opts_of (some o) =
    selinux_opt (str "user:") o.user
    ++ (selinux_opt (str "role:") o.role
        ++ (selinux_opt (str "level:") o.level ++ selinux_opt (str "type:") o.selinux_type))

abbrev set_or_false : Option Bool → Bool
set_or_false none = false
set_or_false (some b) = b

abbrev forbidden : Option Bool → Bool
forbidden none = false
forbidden (some allowed) = not allowed

abbrev user_text : Option Text → Text
user_text none = []
user_text (some id) = id

abbrev group_list : Option Text → List Text
group_list none = []
group_list (some id) = id ∷ []

secure :
    SecurityContext → Option (Option Text) → Option (Option Text) → Option ContainerSecurityConfig
secure context none group = none
secure context (some user) none = none
secure context (some user) (some group) = some (record {
  privileged = set_or_false context.privileged;
  user = user_text user;
  groups = group_list group;
  cap_add = context.cap_add;
  cap_drop = context.cap_drop;
  selinux_opts = selinux_opts_of context.selinux_options;
  no_new_privileges = forbidden context.allow_privilege_escalation;
  read_only_filesystem = set_or_false context.read_only_root_filesystem;
})

abbrev pod_user : Option PodSecurityContext → Option (Option ℕ)
pod_user none = none
pod_user (some context) = some context.run_as_user

abbrev pod_group : Option PodSecurityContext → Option (Option ℕ)
pod_group none = none
pod_group (some context) = some context.run_as_group

-- By the container's and the pod's security contexts; `none` is a panic.
unfoldable pub security_config :
    Option SecurityContext → Option PodSecurityContext → Option ContainerSecurityConfig
unfolding secure
security_config none pod = some no_security
security_config (some context) pod =
    secure context (run_as context.run_as_user (pod_user pod))
      (run_as context.run_as_group (pod_group pod))
