-- ===== src/KubeApi/Certificate/Stored.antt =====
-- controllers/kubeapi/certificate-flow.go: what the flow has done when it succeeds, and that it does.
use kube_pet_node.Prelude.{
  List, [], ◌∷◌, none, some, true, false, Bool-cases, ◌⊎◌, inl, inr, ◌≡◌, ◌≢◌, refl, ◌∙◌,
}
use kube_pet_node.Prelude.Text.{Text, str, text_eq}
use kube_pet_node.Prelude.Assoc.{lookup}
use kube_pet_node.Prelude.Split.{contains}
use kube_pet_node.Prelude.Result.{Result, ok, err}
use kube_pet_node.KubeApi.Keys.{KeyMaterialStorage, ensure_private_key_exists, store_file}
use kube_pet_node.KubeApi.Keys.Files.{
  HasKey, ensure_private_key_exists-HasKey, store_file-certificate,
}
use kube_pet_node.KubeApi.Certificate.{
  SigningRequest, Answers, FlowEnd, Flow, Awaited, await, ended, stored, after_wait, with_csr,
  submit, with_request, with_existing, with_key, perform_certificate_flow,
}

-- The certificate that the polling ends with: that of the first answer in which it is not empty.
pub data Issues : Text → List (Result Text) → Text → Type 0 where
  at_once :
      {certificate : Text} {polls : List (Result Text)}
      → text_eq certificate [] ≡ false
      → Issues certificate polls certificate
  later :
      {now next certificate : Text} {polls : List (Result Text)}
      → text_eq now [] ≡ true
      → Issues next polls certificate
      → Issues now (ok next ∷ polls) certificate

-- The request that the cluster had, or the one that was created after it had none, is answered with
-- this certificate.
abbrev pub IsOpened : Answers → List SigningRequest → Text → Type 0
IsOpened a sent first =
    ((sent ≡ []) × (a.get_csr ≡ ok first))
    ⊎ ((csr : SigningRequest) × (sent ≡ csr ∷ []) × (a.create_csr csr ≡ ok first))

-- There is a key, and the stored certificate is the one that the API server has issued for the
-- request.
abbrev pub HasCertificate : Answers → List SigningRequest → KeyMaterialStorage → Type 0
HasCertificate a sent pss =
    (first certificate : Text) × IsOpened a sent first
    × Issues first a.polls certificate
    × (lookup (str ".crt") pss.files ≡ some certificate)
    × HasKey pss

abbrev IsEquipped : Answers → Flow → Type 0
IsEquipped a flow =
    flow.end ≡ FlowEnd.returned (ok tt) → HasCertificate a flow.submitted flow.storage

abbrev IsIssued : Text → List (Result Text) → Awaited → Type 0
IsIssued first polls (Awaited.approved certificate) = Issues first polls certificate
IsIssued first polls (Awaited.broken e) = Unit {0}
IsIssued first polls Awaited.waits = Unit {0}

later-IsIssued :
    (now next : Text) (polls : List (Result Text)) (w : Awaited)
    → text_eq now [] ≡ true
    → IsIssued next polls w
    → IsIssued now (ok next ∷ polls) w
later-IsIssued now next polls (Awaited.approved certificate) empty issued =
    Issues.later empty issued
later-IsIssued now next polls (Awaited.broken e) empty issued = tt
later-IsIssued now next polls Awaited.waits empty issued = tt

await-IsIssued :
    (polls : List (Result Text)) (certificate : Text)
    → IsIssued certificate polls (await polls certificate)
unfolding await
await-IsIssued [] certificate = elim (Bool-cases (text_eq certificate [])) [
  | inl empty ↦ rw empty tt
  | inr full ↦ rw full (Issues.at_once full)
]
await-IsIssued (err e ∷ polls) certificate = elim (Bool-cases (text_eq certificate [])) [
  | inl empty ↦ rw empty tt
  | inr full ↦ rw full (Issues.at_once full)
]
await-IsIssued (ok next ∷ polls) certificate = elim (Bool-cases (text_eq certificate [])) [
  | inl empty ↦
      rw empty
        (later-IsIssued certificate next polls (await polls next) empty (await-IsIssued polls next))
  | inr full ↦ rw full (Issues.at_once full)
]

module _ (a : Answers) (node_name node_ip : Text) where
  after_wait-IsEquipped :
      (pss : KeyMaterialStorage) (sent : List SigningRequest) (first : Text) (w : Awaited)
      → HasKey pss
      → IsOpened a sent first
      → IsIssued first a.polls w
      → IsEquipped a (after_wait a node_name node_ip pss sent w)
  unfolding after_wait ended stored
  after_wait-IsEquipped pss sent first Awaited.waits key opened issued = λ e. cc
  after_wait-IsEquipped pss sent first (Awaited.broken m) key opened issued = λ e. cc
  after_wait-IsEquipped pss sent first (Awaited.approved certificate) key opened issued = λ e.
      let fine : (store_file a.create_file a.write_file (str ".crt") certificate pss).1 ≡ ok tt =
        cc in
      let (kept, has_key) =
        store_file-certificate a.create_file a.write_file certificate pss key fine in
      (first, certificate, opened, issued, kept, has_key)

  with_csr-IsEquipped :
      (pss : KeyMaterialStorage) (sent : List SigningRequest) (csr : Result Text)
      → HasKey pss
      → ((first : Text) → csr ≡ ok first → IsOpened a sent first)
      → IsEquipped a (with_csr a node_name node_ip pss sent csr)
  unfolding with_csr ended
  with_csr-IsEquipped pss sent (err m) key opened = λ e. cc
  with_csr-IsEquipped pss sent (ok certificate) key opened =
      after_wait-IsEquipped pss sent certificate (await a.polls certificate) key
        (opened certificate refl) (await-IsIssued a.polls certificate)

  with_request-IsEquipped :
      (pss : KeyMaterialStorage) (request : Result Text) (uid : Result Text)
      → HasKey pss
      → a.get_node_uid ≡ uid
      → IsEquipped a (with_request a node_name node_ip pss request)
  unfolding with_request submit ended
  with_request-IsEquipped pss (err m) uid key u = λ e. cc
  with_request-IsEquipped pss (ok request) (err m) key u = rw u (λ e. cc)
  with_request-IsEquipped pss (ok request) (ok uid) key u =
      rw u (with_csr-IsEquipped pss _ _ key (λ first e. inr (_, refl, e)))

  with_existing-IsEquipped :
      (pss : KeyMaterialStorage) (csr : Result Text)
      → HasKey pss
      → a.get_csr ≡ csr
      → IsEquipped a (with_existing a node_name node_ip pss csr)
  unfolding with_existing ended
  with_existing-IsEquipped pss (ok certificate) key got =
      with_csr-IsEquipped pss [] (ok certificate) key (λ first e. inl (refl, got ∙ e))
  with_existing-IsEquipped pss (err m) key got = elim (Bool-cases (contains (str "not found") m)) [
    | inl missing ↦ rw missing (with_request-IsEquipped pss _ a.get_node_uid key refl)
    | inr other ↦ rw other (λ e. cc)
  ]

  with_key-IsEquipped :
      (pss : KeyMaterialStorage) (result : Result (Unit {0}))
      → (result ≡ ok tt → HasKey pss)
      → IsEquipped a (with_key a node_name node_ip (pss, result))
  unfolding with_key ended
  with_key-IsEquipped pss (err m) key = λ e. cc
  with_key-IsEquipped pss (ok tt) key = with_existing-IsEquipped pss a.get_csr (key refl) refl

  -- Whatever the system and the API server answer, when the flow succeeds, and openssl leaves a key
  -- where it reports success, then the key is there, and the stored certificate is that of the first
  -- answer in which it is not empty, among the answer to the request, which the cluster either had or
  -- was sent as the only one, and those to the polling.
  pub perform_certificate_flow-HasCertificate :
      (pss : KeyMaterialStorage)
      → (a.keygen.result ≡ ok tt → a.keygen.leaves ≢ none)
      → (perform_certificate_flow a node_name node_ip pss).end ≡ FlowEnd.returned (ok tt)
      → HasCertificate a
          (perform_certificate_flow a node_name node_ip pss).submitted
          (perform_certificate_flow a node_name node_ip pss).storage
  unfolding perform_certificate_flow
  perform_certificate_flow-HasCertificate pss honest fine =
      with_key-IsEquipped (ensure_private_key_exists a.stat a.keygen pss).0
        (ensure_private_key_exists a.stat a.keygen pss).1
        (ensure_private_key_exists-HasKey a.stat a.keygen pss honest) fine
