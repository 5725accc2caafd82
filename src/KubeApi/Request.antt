-- ===== src/KubeApi/Request.antt =====
-- controllers/kubeapi/certificate-request.go: the parameters of the certificate, and the openssl
-- process that makes the request of them.
use kube_pet_node.Prelude.{List, [], ◌∷◌, ◌++◌}
use kube_pet_node.Prelude.Text.{Text, str}
use kube_pet_node.Prelude.Assoc.{Assoc}
use kube_pet_node.Prelude.Result.{Result, ok, err}

-- The sections of an INI file with their keys.
abbrev pub Ini : Type 0
Ini = List (Text × Assoc Text)

unfoldable pub create_server_auth_csr_params : Text → Text → Ini
create_server_auth_csr_params node_name node_ip =
    (
      str "req",
      (str "days", str "30")
          ∷ (str "prompt", str "no")
          ∷ (str "req_extensions", str "v3_req")
          ∷ (str "distinguished_name", str "dn")
          ∷ [],
    )
    ∷ (str "dn", (str "O", str "system:nodes") ∷ (str "CN", str "system:node:" ++ node_name) ∷ [])
    ∷ (
      str "v3_req",
      (str "subjectAltName", str "@alt_names")
          ∷ (str "basicConstraints", str "CA:FALSE")
          ∷ (str "extendedKeyUsage", str "serverAuth")
          ∷ (str "keyUsage", str "nonRepudiation, digitalSignature, keyEncipherment")
          ∷ [],
    )
    ∷ (str "alt_names", (str "DNS.1", node_name) ∷ (str "IP.1", node_ip) ∷ [])
    ∷ []

-- What the system and openssl answer; the request is what openssl printed.
pub record Openssl : Type 0 where
  pub stdin_pipe : Result (Unit {0})
  pub stdout_pipe : Result (Unit {0})
  pub start : Result (Unit {0})
  pub write_params : Ini → Result (Unit {0})
  pub read_all : Ini → Result Text
  pub wait : Result (Unit {0})

abbrev then_ok : {A : Type 0} → Result (Unit {0}) → Result A → Result A
then_ok (err e) rest = err e
then_ok (ok _) rest = rest

-- The error of the process goes before that of the reading.
unfoldable pub generate_cert_request : Openssl → Ini → Result Text
generate_cert_request o params = then_ok o.stdin_pipe (
    then_ok o.stdout_pipe
      (then_ok o.start (then_ok (o.write_params params) (then_ok o.wait (o.read_all params)))))
