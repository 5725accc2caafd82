-- ===== src/KubeApi/Certificate.antt =====
-- controllers/kubeapi/certificate-flow.go: the node asks the cluster for its certificate and waits
-- until somebody approves it.
pub mod Stored
use kube_pet_node.Prelude.{List, [], ◌∷◌, ◌++◌, Option, none, some, Bool, if◌then◌else◌}
use kube_pet_node.Prelude.Text.{Text, str, text_eq}
use kube_pet_node.Prelude.Split.{contains}
use kube_pet_node.Prelude.Result.{Result, ok, err}
use kube_pet_node.Pods.Storage.{Answer, WriteAnswer}
use kube_pet_node.KubeApi.Keys.{KeyMaterialStorage, Keygen, ensure_private_key_exists, store_file}
use kube_pet_node.KubeApi.Request.{Openssl, create_server_auth_csr_params, generate_cert_request}

-- The request that is sent to the cluster; its labels and usages are constants.
pub record SigningRequest : Type 0 where
  pub name : Text
  pub owner_name : Text
  pub owner_uid : Text
  pub request : Text

-- What the system and the API server answer. A request is known here by its certificate; `polls` are
-- the answers to the polling, as far as they go.
pub record Answers : Type 0 where
  pub stat : Answer
  pub keygen : Keygen
  pub openssl : Openssl
  pub get_csr : Result Text
  pub get_node_uid : Result Text
  pub create_csr : SigningRequest → Result Text
  pub polls : List (Result Text)
  pub create_file : Answer
  pub write_file : WriteAnswer

-- The flow still polls, or has returned.
pub data FlowEnd : Type 0 where
  pending : FlowEnd
  returned : Result (Unit {0}) → FlowEnd

pub record Flow : Type 0 where
  pub storage : KeyMaterialStorage
  pub submitted : List SigningRequest
  pub end : FlowEnd

pub data Awaited : Type 0 where
  approved : Text → Awaited
  broken : Text → Awaited
  waits : Awaited

-- Polling goes on while the certificate is empty.
unfoldable pub await : List (Result Text) → Text → Awaited
await [] certificate =
    if text_eq certificate [] then Awaited.waits else Awaited.approved certificate
await (err e ∷ polls) certificate =
    if text_eq certificate [] then Awaited.broken e else Awaited.approved certificate
await (ok next ∷ polls) certificate =
    let rest = await polls next in
    if text_eq certificate [] then rest else Awaited.approved certificate

module _ (a : Answers) (node_name node_ip : Text) where
  csr_name : Text
  csr_name = str "kube-pet-node." ++ node_name

  ended : KeyMaterialStorage → List SigningRequest → Result (Unit {0}) → Flow
  ended pss sent result = record { storage = pss; submitted = sent; end = FlowEnd.returned result }

  stored : List SigningRequest → KeyMaterialStorage × Result (Unit {0}) → Flow
  unfolding ended
  stored sent (pss, result) = ended pss sent result

  after_wait : KeyMaterialStorage → List SigningRequest → Awaited → Flow
  unfolding ended stored
  after_wait pss sent Awaited.waits = record {
    storage = pss;
    submitted = sent;
    end = FlowEnd.pending;
  }
  after_wait pss sent (Awaited.broken e) = ended pss sent (err e)
  after_wait pss sent (Awaited.approved certificate) =
      stored sent (store_file a.create_file a.write_file (str ".crt") certificate pss)

  with_csr : KeyMaterialStorage → List SigningRequest → Result Text → Flow
  unfolding after_wait ended
  with_csr pss sent (err e) = ended pss sent (err e)
  with_csr pss sent (ok certificate) = after_wait pss sent (await a.polls certificate)

  submit : KeyMaterialStorage → Text → Result Text → Flow
  unfolding with_csr csr_name ended
  submit pss request (err e) = ended pss [] (err e)
  submit pss request (ok uid) =
      let csr : SigningRequest = record {
        name = csr_name;
        owner_name = node_name;
        owner_uid = uid;
        request = request;
      } in
      with_csr pss (csr ∷ []) (a.create_csr csr)

  with_request : KeyMaterialStorage → Result Text → Flow
  unfolding submit ended
  with_request pss (err e) = ended pss [] (err e)
  with_request pss (ok request) = submit pss request a.get_node_uid

  -- An error that says "not found" leads to a new request.
  with_existing : KeyMaterialStorage → Result Text → Flow
  unfolding with_request with_csr ended
  with_existing pss (ok certificate) = with_csr pss [] (ok certificate)
  with_existing pss (err e) =
      if contains (str "not found") e
      then with_request pss
          (generate_cert_request a.openssl (create_server_auth_csr_params node_name node_ip))
      else ended pss [] (err e)

  with_key : KeyMaterialStorage × Result (Unit {0}) → Flow
  unfolding with_existing ended
  with_key (pss, err e) = ended pss [] (err e)
  with_key (pss, ok _) = with_existing pss a.get_csr

  unfoldable pub perform_certificate_flow : KeyMaterialStorage → Flow
  unfolding with_key
  perform_certificate_flow pss = with_key (ensure_private_key_exists a.stat a.keygen pss)
