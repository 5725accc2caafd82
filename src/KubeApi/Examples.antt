-- ===== src/KubeApi/Examples.antt =====
-- The theorem on the certificate flow, applied to a new node whose request is approved at the second
-- poll.
use kube_pet_node.Prelude.{[], ◌∷◌, none, some, ◌≡◌, ◌≢◌, refl}
use kube_pet_node.Prelude.Text.{str, text_eq}
use kube_pet_node.Prelude.Assoc.{lookup}
use kube_pet_node.Prelude.Split.{starts_with, contains}
use kube_pet_node.Prelude.Result.{ok, err}
use kube_pet_node.Pods.Storage.{done, wrote}
use kube_pet_node.KubeApi.Keys.{KeyMaterialStorage, Keygen, ensure_private_key_exists, store_file}
use kube_pet_node.KubeApi.Request.{Openssl, generate_cert_request}
use kube_pet_node.KubeApi.Certificate.{Answers, FlowEnd, await, perform_certificate_flow}
use kube_pet_node.KubeApi.Certificate.Stored.{
  HasCertificate, perform_certificate_flow-HasCertificate,
}

abbrev genrsa : Keygen
genrsa = record { leaves = some (str "KEY"); result = ok tt }

abbrev openssl : Openssl
openssl = record {
  stdin_pipe = ok tt;
  stdout_pipe = ok tt;
  start = ok tt;
  write_params = λ params. ok tt;
  read_all = λ params. ok (str "CSR");
  wait = ok tt;
}

abbrev approving : Answers
approving = record {
  stat = done;
  keygen = genrsa;
  openssl = openssl;
  get_csr = err (str "csr not found");
  get_node_uid = ok (str "n1");
  create_csr = λ csr. ok [];
  polls = ok [] ∷ ok (str "CERT") ∷ [];
  create_file = done;
  write_file = wrote;
}

abbrev empty_storage : KeyMaterialStorage
empty_storage = record { files = [] }

genrsa-honest : genrsa.result ≡ ok tt → genrsa.leaves ≢ none
genrsa-honest fine missing = cc

flow_succeeds :
    (perform_certificate_flow approving (str "pet-lab") (str "10.6.0.2") empty_storage).end
    ≡ FlowEnd.returned (ok tt)
unfolding perform_certificate_flow ensure_private_key_exists await store_file generate_cert_request
    contains starts_with lookup text_eq str
flow_succeeds = refl

perform_certificate_flow-HasCertificate_example :
    HasCertificate approving
      (perform_certificate_flow approving (str "pet-lab") (str "10.6.0.2") empty_storage).submitted
      (perform_certificate_flow approving (str "pet-lab") (str "10.6.0.2") empty_storage).storage
perform_certificate_flow-HasCertificate_example =
    perform_certificate_flow-HasCertificate approving (str "pet-lab") (str "10.6.0.2") empty_storage
      genrsa-honest flow_succeeds
