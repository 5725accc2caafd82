-- ===== src/Pods/Convert/Mounts.antt =====
-- controllers/pods/converter.go: the volume mounts of `ConvertContainerConfig`.
pub mod Count
use kube_pet_node.Prelude.{List, [], ◌∷◌, ◌++◌, Option, none, some, if◌then◌else◌}
use kube_pet_node.Prelude.Text.{Text, str, text_eq}
use kube_pet_node.Prelude.Assoc.{Assoc, lookup}
use kube_pet_node.Pods.Kube.{Pod, Volume, VolumeSource, VolumeMount}

pub record Mount : Type 0 where
  pub mount_type : Text
  pub source : Text
  pub destination : Text
  pub options : List Text

pub record NamedVolume : Type 0 where
  pub name : Text
  pub dest : Text

-- `mounts` and `volumes`, as far as they are filled.
pub record Attached : Type 0 where
  pub mounts : List Mount
  pub volumes : List NamedVolume

-- The first volume of the pod with the name.
unfoldable pub find_volume : Text → List Volume → Option VolumeSource
find_volume name [] = none
find_volume name (volume ∷ volumes) =
    let rest = find_volume name volumes in
    if text_eq volume.name name then some volume.source else rest

-- The SELinux flag that an annotation asks for.
unfoldable pub relabel_flags : Option Text → List Text
relabel_flags none = []
relabel_flags (some value) =
    if text_eq value (str "relabel-private")
    then str "Z" ∷ []
    else if text_eq value (str "relabel-shared")
    then str "z" ∷ []
    else []

unfoldable pub mount_flags : Assoc Text → VolumeMount → List Text
unfolding relabel_flags
mount_flags annotations vol_mount =
    (if vol_mount.read_only then str "ro" else str "rw")
    ∷ relabel_flags (lookup (str "vk.podman.io/volume-selinux." ++ vol_mount.name) annotations)

abbrev with_mount : Mount → Attached → Attached
with_mount mount a = record a { mounts = a.mounts ++ (mount ∷ []) }

-- A volume that is set up elsewhere.
unfoldable pub named_volume : Pod → VolumeMount → NamedVolume
named_volume pod vol_mount = record {
  name = pod.uid ++ (b'_' ∷ vol_mount.name);
  dest = vol_mount.mount_path;
}

abbrev with_volume : NamedVolume → Attached → Attached
with_volume volume a = record a { volumes = a.volumes ++ (volume ∷ []) }

-- One round of the loop over the volume mounts; a mount without a volume is passed over.
unfoldable pub attach_source : Pod → VolumeMount → Option VolumeSource → Attached → Attached
unfolding named_volume
attach_source pod vol_mount none a = a
attach_source pod vol_mount (some (VolumeSource.host_path path)) a =
    with_mount
      (record {
        mount_type = str "bind";
        source = path ++ vol_mount.sub_path;
        destination = vol_mount.mount_path;
        options = mount_flags pod.annotations vol_mount;
      })
      a
attach_source pod vol_mount (some (VolumeSource.empty_dir medium)) a =
    if text_eq medium (str "Memory")
    then with_mount
        (record {
          mount_type = str "tmpfs";
          source = str "tmpfs";
          destination = vol_mount.mount_path;
          options = [];
        })
        a
    else with_volume (named_volume pod vol_mount) a
attach_source pod vol_mount (some (VolumeSource.secret source)) a =
    with_volume (named_volume pod vol_mount) a
attach_source pod vol_mount (some (VolumeSource.projected source)) a =
    with_volume (named_volume pod vol_mount) a
attach_source pod vol_mount (some VolumeSource.other) a = with_volume (named_volume pod vol_mount) a

unfoldable pub attach_from : Pod → Attached → List VolumeMount → Attached
unfolding attach_source
attach_from pod a [] = a
attach_from pod a (m ∷ ms) =
    attach_from pod (attach_source pod m (find_volume m.name pod.spec.volumes) a) ms

unfoldable pub attach_all : Pod → List VolumeMount → Attached
unfolding attach_from
attach_all pod ms = attach_from pod (record { mounts = []; volumes = [] }) ms
