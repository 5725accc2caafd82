-- ===== src/Pods/Samples.antt =====
-- Sample pods for the tests.

use kube_pet_node.Prelude.{[], ◌∷◌, none, some, true, false, ◌≡◌, refl, sym, subst, arith}
use kube_pet_node.Prelude.Text.{str}
use kube_pet_node.Prelude.Int.{pos}
use kube_pet_node.Pods.Kube.{Pod, Container, ContainerState}
use kube_pet_node.Prelude.Result.{ok}
use kube_pet_node.Pods.Coord.{PodCoord}
use kube_pet_node.Pods.Coord.Keys.{IsValid}
use kube_pet_node.Pods.Storage.{Json, PodSpecStorage, coord_of}

abbrev pub app : Container
app = record {
  name = str "app";
  image = str "nginx";
  image_pull_policy = str "IfNotPresent";
  command = [];
  args = [];
  env = [];
  tty = false;
  stdin = false;
  working_dir = [];
  resources = record {
    request_milli_cpu = 250;
    request_memory = 1000;
    limit_milli_cpu = 500;
    limit_memory = 2000;
  };
  volume_mounts = [];
  security_context = none;
}

abbrev pub web : Pod
web = record {
  namespace = str "default";
  name = str "web";
  uid = str "u1";
  annotations = [];
  spec = record {
    containers = app ∷ [];
    volumes = [];
    host_network = false;
    share_process_namespace = none;
    dns_policy = str "ClusterFirst";
    priority = some (pos 0);
    security_context = none;
    image_pull_secrets = [];
    service_account_name = [];
  };
  status = record {
    phase = str "Pending";
    qos_class = str "Burstable";
    conditions = [];
    container_statuses =
        record {
          name = str "app";
          image = str "nginx";
          ready = true;
          restart_count = 0;
          container_id = str "podman://c1";
          image_id = [];
          state = ContainerState.running;
        }
        ∷ [];
    pod_ip = [];
  };
}

abbrev pub web_coord : PodCoord
web_coord = record { namespace = str "default"; name = str "web" }

abbrev pub other_coord : PodCoord
other_coord = record { namespace = str "default"; name = str "db" }

pub web_coord-IsValid : IsValid web_coord
unfolding str
web_coord-IsValid = record {
  has_namespace = λ e. cc;
  has_name = λ e. cc;
  plain_namespace = ground arith;
  plain_name = ground arith;
}

pub other_coord-IsValid : IsValid other_coord
unfolding str
other_coord-IsValid = record {
  has_namespace = λ e. cc;
  has_name = λ e. cc;
  plain_namespace = ground arith;
  plain_name = ground arith;
}

pub coord_of-web : coord_of web ≡ web_coord
unfolding coord_of
coord_of-web = refl

pub coord_of-web-IsValid : IsValid (coord_of web)
coord_of-web-IsValid = subst IsValid (sym coord_of-web) web_coord-IsValid

-- A codec that keeps the name of a pod only.
abbrev pub web_json : Json
web_json = record { encode = λ pod. ok pod.name; decode = λ t. ok (record web { name = t }) }

abbrev pub web_store : PodSpecStorage
web_store = record { files = (str "default_web.json", str "web") ∷ [] }
