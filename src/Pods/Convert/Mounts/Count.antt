-- ===== src/Pods/Convert/Mounts/Count.antt =====
-- controllers/pods/converter.go: what podman is asked for by the volume mounts.
use kube_pet_node.Prelude.{
  ℕ, ◌+◌, List, [], ◌∷◌, length, length-append, All, Option, none, some, inl, inr, Bool-cases, ◌≡◌,
  ◌≢◌, refl, sym, ap, ◌∙◌, arith, ◌++◌, append-nil, append_assoc, flat_map, Bool, true, false,
  if◌then◌else◌,
}
use kube_pet_node.Prelude.Assoc.{lookup}
use kube_pet_node.Prelude.Text.{Text, str, text_eq}
use kube_pet_node.Pods.Kube.{Pod, VolumeSource, VolumeMount}
use kube_pet_node.Pods.Convert.Mounts.{
  Mount, NamedVolume, Attached, find_volume, attach_source, attach_from, attach_all, with_mount,
  with_volume, relabel_flags, named_volume, mount_flags,
}

abbrev pub total : Attached → ℕ
total a = length a.mounts + length a.volumes

with_mount-total : (m : Mount) (a : Attached) → total (with_mount m a) ≡ total a + 1
with_mount-total m a = omega (arith, length-append a.mounts (m ∷ []))

with_volume-total : (v : NamedVolume) (a : Attached) → total (with_volume v a) ≡ total a + 1
with_volume-total v a = omega (arith, length-append a.volumes (v ∷ []))

attach_source-total :
    (pod : Pod) (m : VolumeMount) (source : VolumeSource) (a : Attached)
    → total (attach_source pod m (some source) a) ≡ total a + 1
unfolding attach_source
attach_source-total pod m (VolumeSource.host_path path) a = with_mount-total _ a
attach_source-total pod m (VolumeSource.empty_dir medium) a =
    elim (Bool-cases (text_eq medium (str "Memory"))) [
      | inl memory ↦ rw memory (with_mount-total _ a)
      | inr disk ↦ rw disk (with_volume-total _ a)
    ]
attach_source-total pod m (VolumeSource.secret source) a = with_volume-total _ a
attach_source-total pod m (VolumeSource.projected source) a = with_volume-total _ a
attach_source-total pod m VolumeSource.other a = with_volume-total _ a

found-total :
    (pod : Pod) (m : VolumeMount) (source : Option VolumeSource) (a : Attached)
    → source ≢ none
    → total (attach_source pod m source a) ≡ total a + 1
found-total pod m none a h = elim (h refl) [ ]
found-total pod m (some source) a h = attach_source-total pod m source a

attach_from-total :
    (pod : Pod) (a : Attached) (ms : List VolumeMount)
    → All (λ (m : VolumeMount). find_volume m.name pod.spec.volumes ≢ none) ms
    → total (attach_from pod a ms) ≡ total a + length ms
unfolding attach_from
attach_from-total pod a [] h = omega arith
attach_from-total pod a (m ∷ ms) (found, hs) =
    let source : Option VolumeSource = find_volume m.name pod.spec.volumes in
    omega (
      arith,
      attach_from-total pod (attach_source pod m source a) ms hs,
      found-total pod m source a found,
    )

abbrev access : Bool → Text
access true = str "ro"
access false = str "rw"

-- The flag for the annotation's value.
abbrev selinux : Option Text → List Text
selinux none = []
selinux (some value) =
    if text_eq value (str "relabel-private")
    then str "Z" ∷ []
    else if text_eq value (str "relabel-shared")
    then str "z" ∷ []
    else []

-- The mount that a volume mount asks for, if its volume is a path of the host or is kept in memory.
abbrev pub direct : Pod → VolumeMount → Option VolumeSource → List Mount
direct pod m (some (VolumeSource.host_path path)) =
    record {
      mount_type = str "bind";
      source = path ++ m.sub_path;
      destination = m.mount_path;
      options =
          access m.read_only
          ∷ selinux (lookup (str "vk.podman.io/volume-selinux." ++ m.name) pod.annotations);
    }
    ∷ []
direct pod m (some (VolumeSource.empty_dir medium)) =
    if text_eq medium (str "Memory")
    then record {
      mount_type = str "tmpfs";
      source = str "tmpfs";
      destination = m.mount_path;
      options = [];
    }
      ∷ []
    else []
direct pod m (some (VolumeSource.secret source)) = []
direct pod m (some (VolumeSource.projected source)) = []
direct pod m (some VolumeSource.other) = []
direct pod m none = []

abbrev own_volume : Pod → VolumeMount → List NamedVolume
own_volume pod m = record { name = pod.uid ++ (str "_" ++ m.name); dest = m.mount_path } ∷ []

-- The volume of podman that it asks for otherwise.
abbrev pub by_name : Pod → VolumeMount → Option VolumeSource → List NamedVolume
by_name pod m (some (VolumeSource.host_path path)) = []
by_name pod m (some (VolumeSource.empty_dir medium)) =
    if text_eq medium (str "Memory") then [] else own_volume pod m
by_name pod m (some (VolumeSource.secret source)) = own_volume pod m
by_name pod m (some (VolumeSource.projected source)) = own_volume pod m
by_name pod m (some VolumeSource.other) = own_volume pod m
by_name pod m none = []

-- What is attached after `a`.
abbrev joined : Attached → List Mount → List NamedVolume → Attached
joined a mounts volumes = record { mounts = a.mounts ++ mounts; volumes = a.volumes ++ volumes }

access-flags :
    (pod : Pod) (m : VolumeMount) (read_only : Bool) (value : Option Text)
    → (if read_only then str "ro" else str "rw") ∷ relabel_flags value
      ≡ access read_only ∷ selinux value
unfolding relabel_flags
access-flags pod m true none = refl
access-flags pod m true (some value) = refl
access-flags pod m false none = refl
access-flags pod m false (some value) = refl

attach_source-joined :
    (pod : Pod) (m : VolumeMount) (source : Option VolumeSource) (a : Attached)
    → attach_source pod m source a ≡ joined a (direct pod m source) (by_name pod m source)
unfolding attach_source named_volume mount_flags str
attach_source-joined pod m none a = rw (append-nil, append-nil) refl
attach_source-joined pod m (some (VolumeSource.host_path path)) a =
    rw (append-nil, access-flags pod m m.read_only _) refl
attach_source-joined pod m (some (VolumeSource.empty_dir medium)) a =
    elim (Bool-cases (text_eq medium (str "Memory"))) [
      | inl memory ↦ rw (memory, append-nil) refl
      | inr disk ↦ rw (disk, append-nil) refl
    ]
attach_source-joined pod m (some (VolumeSource.secret source)) a = rw append-nil refl
attach_source-joined pod m (some (VolumeSource.projected source)) a = rw append-nil refl
attach_source-joined pod m (some VolumeSource.other) a = rw append-nil refl

abbrev pub all_direct : Pod → List VolumeMount → List Mount
all_direct pod ms =
    flat_map (λ (m : VolumeMount). direct pod m (find_volume m.name pod.spec.volumes)) ms

abbrev pub all_by_name : Pod → List VolumeMount → List NamedVolume
all_by_name pod ms =
    flat_map (λ (m : VolumeMount). by_name pod m (find_volume m.name pod.spec.volumes)) ms

attach_from-joined :
    (pod : Pod) (a : Attached) (ms : List VolumeMount)
    → attach_from pod a ms ≡ joined a (all_direct pod ms) (all_by_name pod ms)
unfolding attach_from
attach_from-joined pod a [] = rw (append-nil, append-nil) refl
attach_from-joined pod a (m ∷ ms) =
    let source : Option VolumeSource = find_volume m.name pod.spec.volumes in
    attach_from-joined pod (attach_source pod m source a) ms
    ∙ ap (λ b. joined b (all_direct pod ms) (all_by_name pod ms))
        (attach_source-joined pod m source a)
    ∙ rw (append_assoc, append_assoc) refl

-- When every volume mount names a volume of the pod, the mounts of the container are those for the
-- paths of the host, each with its path, its destination, its access and its flag for SELinux, and
-- those in memory; its named volumes are the others, each named by the pod's uid and the volume, with
-- its destination; both in the order of the volume mounts, each of which is in one of them once.
pub attach_all-outcome :
    (pod : Pod) (ms : List VolumeMount)
    → All (λ (m : VolumeMount). find_volume m.name pod.spec.volumes ≢ none) ms
    → (attach_all pod ms ≡ record { mounts = all_direct pod ms; volumes = all_by_name pod ms })
      × (length (all_direct pod ms) + length (all_by_name pod ms) ≡ length ms)
unfolding attach_all
attach_all-outcome pod ms h =
    let blank : Attached = record { mounts = []; volumes = [] } in
    let same : attach_from pod blank ms ≡ joined blank (all_direct pod ms) (all_by_name pod ms) =
      attach_from-joined pod blank ms in
    (same, sym (ap total same) ∙ omega (arith, attach_from-total pod blank ms h))
