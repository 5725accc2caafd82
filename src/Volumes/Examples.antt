-- ===== src/Volumes/Examples.antt =====
-- The theorems on the volumes, applied to a pod with two volumes.
use mathlib.Core.List.{Memᴰ}
use mathlib.Core.List.Permᴰ
use kube_pet_node.Prelude.{List, [], ◌∷◌, ◌++◌, map, none, some, true, false, ◌≡◌, refl}
use kube_pet_node.Prelude.Text.{Text, str, text_eq}
use kube_pet_node.Prelude.Result.{ok, err}
use kube_pet_node.Prelude.Run.{Outcome}
use kube_pet_node.Pods.Kube.{Pod, Volume, VolumeMount, VolumeSource}
use kube_pet_node.Pods.Convert.Mounts.{NamedVolume, attach_all, find_volume}
use kube_pet_node.Pods.Samples.{web}
use kube_pet_node.Volumes.Archive.{TarAnswers, tar_command}
use kube_pet_node.Volumes.Runtime.{Answers, VolumeCall, runtime_name}
use kube_pet_node.Volumes.Controller.{create_pod_volumes, make_volumes}
use kube_pet_node.Volumes.Controller.Made.{
  AllowsAll, removals, requests, create_pod_volumes-requests, make_volumes-ends,
}
use kube_pet_node.Volumes.Controller.Mounted.{IsRequested, attach_all-IsRequested}

abbrev working_tar : TarAnswers
working_tar = record {
  uid = 0;
  stdin_pipe = ok tt;
  start = λ command. ok tt;
  write_header = λ entry. ok tt;
  copy = λ entry. ok tt;
  close_tar = ok tt;
  close_stdin = ok tt;
  wait = ok tt;
}

-- podman lists one old volume, and does what it is asked for.
abbrev willing : Answers
willing = record {
  volume_list = λ filter. ok (map (runtime_name (str "u1")) (str "cache" ∷ []));
  volume_create = λ name. ok (str "/volumes/" ++ name);
  volume_rm = λ name. ok tt;
  get_secret = λ namespace name. err (str "not found");
  create_token = λ namespace name source. ok (str "token");
  tar = working_tar;
  now_unix = 1000;
  file_order = λ m. m;
  link_order = λ m. m;
}

willing-AllowsAll : AllowsAll willing
willing-AllowsAll = record {
  rm = λ name. refl;
  path = λ name. str "/volumes/" ++ name;
  create = λ name. refl;
}

abbrev cache : Volume
cache = record { name = str "cache"; source = VolumeSource.empty_dir [] }

abbrev logs : Volume
logs = record { name = str "logs"; source = VolumeSource.host_path (str "/var/log") }

abbrev token_file : Volume
token_file = record {
  name = str "token";
  source = VolumeSource.secret (record {
    secret_name = str "token";
    items = none;
    default_mode = none;
    optional = some true;
  });
}

abbrev cached : Pod
cached = record web { spec = record (web.spec) { volumes = cache ∷ logs ∷ [] } }

abbrev token_path : Text
token_path = str "aws/token"

create_pod_volumes-requests_example : create_pod_volumes willing cached [] ≡ (
  (([] ++ (VolumeCall.volume_list (str "poduid=" ++ str "u1") ∷ []))
        ++ removals (str "u1") (str "cache" ∷ []))
      ++ requests (str "u1") (cache ∷ logs ∷ []),
  Outcome.returned tt,
)
create_pod_volumes-requests_example =
    create_pod_volumes-requests willing cached (str "cache" ∷ []) [] willing-AllowsAll refl
      (refl, (refl, tt))

make_volumes-ends_example :
    make_volumes willing cached ((cache ∷ []) ++ token_file ∷ logs ∷ cache ∷ []) []
    ≡ make_volumes willing cached ((cache ∷ []) ++ token_file ∷ []) []
make_volumes-ends_example =
    make_volumes-ends willing cached (cache ∷ []) (logs ∷ cache ∷ []) token_file []
      willing-AllowsAll (refl, tt) refl

abbrev cache_mount : VolumeMount
cache_mount = record {
  name = str "cache";
  mount_path = str "/cache";
  sub_path = [];
  read_only = false;
}

abbrev cache_volume : NamedVolume
cache_volume = record { name = runtime_name (str "u1") (str "cache"); dest = str "/cache" }

cache_volume-named : Memᴰ cache_volume (attach_all cached (cache_mount ∷ [])).volumes
unfolding attach_all runtime_name str find_volume text_eq
cache_volume-named = Memᴰ.head refl

attach_all-IsRequested_example :
    IsRequested cache_volume.name (create_pod_volumes willing cached []).0
attach_all-IsRequested_example =
    attach_all-IsRequested willing cached (cache_mount ∷ []) cache_volume (str "cache" ∷ []) []
      willing-AllowsAll refl (tt, (tt, tt)) cache_volume-named

-- Root runs tar by sudo.
root_command :
    tar_command 0 (str "/v")
    ≡ str "sudo" ∷ str "tar" ∷ str "-xf" ∷ str "-" ∷ str "-C" ∷ str "/v" ∷ []
unfolding tar_command
root_command = refl
