-- ===== src/Pods/ImagePull.antt =====
-- controllers/pods/image-pull.go. podman's pull and the decoding and encoding of the registry
-- credentials are parameters.
pub mod Swallow
use kube_pet_node.Prelude.{
  ℕ, List, [], ◌∷◌, ◌++◌, map, Option, none, some, Bool, true, false, ◌||◌, ◌==◌, if◌then◌else◌,
}
use kube_pet_node.Prelude.Text.{Text, str, text_eq}
use kube_pet_node.Prelude.Split.{contains}
use kube_pet_node.Prelude.Result.{Result, ok, err}

-- podman.ImagePullReport
pub record ImagePullReport : Type 0 where
  pub stream : Text
  pub error : Text
  pub images : List Text

-- The members of corev1.Secret that are read; the value is that of ".dockerconfigjson".
pub record Secret : Type 0 where
  pub name : Text
  pub secret_type : Text
  pub docker_config_json : Option Text

unfoldable pub is_unauthorized : Text → Bool
is_unauthorized e = contains (str "unauthorized") e

-- `lastLine`, `ids` and `err` of the loop.
record PullState : Type 0 where
  last_line : Text
  ids : List Text
  err : Option Text

abbrev is_empty : List Text → Bool
is_empty [] = true
is_empty (x ∷ xs) = false

pull_event : ImagePullReport → PullState → PullState
pull_event event s =
    if text_eq event.stream []
    then (if text_eq event.error []
        then (if is_empty event.images then s else record s { ids = event.images })
        else record s { err = some event.error })
    else record s { last_line = event.stream }

pull_events : List ImagePullReport → PullState → PullState
unfolding pull_event
pull_events [] s = s
pull_events (event ∷ events) s = pull_events events (pull_event event s)

pull_error : PullState → Option Text
pull_error s = elim s.err [
  | some e ↦ some e
  | none ↦
      if is_empty s.ids then (if text_eq s.last_line [] then none else some s.last_line) else none
]

-- The error that `processPullStream` returns, if any.
unfoldable pub process_pull_stream : List ImagePullReport → Option Text
unfolding pull_events pull_error
process_pull_stream events =
    pull_error (pull_events events (record { last_line = []; ids = []; err = none }))

-- The events on the pod: the first says that a pull begins.
pub data PullEvent : Type 0 where
  pulling pulled_public pulled_private : Text → PullEvent

-- How a pull ended: `err == nil`, another error, or one that says "unauthorized".
pub data PullEnd : Type 0 where
  pulled : PullEnd
  failed refused : Text → PullEnd

unfoldable pub end_of : Option Text → PullEnd
unfolding is_unauthorized
end_of none = PullEnd.pulled
end_of (some e) = if is_unauthorized e then PullEnd.refused e else PullEnd.failed e

-- podman's answer to the request, followed by the events of its stream.
unfoldable pub pull_end : Result (List ImagePullReport) → PullEnd
unfolding end_of process_pull_stream
pull_end (err e) = end_of (some e)
pull_end (ok events) = end_of (process_pull_stream events)

-- The outer `err` after the first request. The error of the stream is in an inner variable.
unfoldable pub request_error : Result (List ImagePullReport) → Option Text
request_error (err e) = some e
request_error (ok events) = none

-- caching.Controller.GetSecret for each name, up to the first that fails.
unfoldable pub grab_pull_secrets : (Text → Result Secret) → List Text → Result (List Secret)
grab_pull_secrets get [] = ok []
grab_pull_secrets get (name ∷ names) =
    let rest = grab_pull_secrets get names in
    elim (get name) [
      | err e ↦ err e
      | ok secret ↦ elim rest [ err e ↦ err e | ok secrets ↦ ok (secret ∷ secrets) ]
    ]

module _ {Auths : Type 0} (unmarshal : Text → Result Auths) (marshal : Auths → Result Text)
    (pull : Text → Option Text → Result (List ImagePullReport)) where
  encode_auths : Result Auths → Result Text
  encode_auths (err e) = err (str "Failed to read dockerconfigjson from Secret: " ++ e)
  encode_auths (ok auths) = elim (marshal auths) [
    | err e ↦ err (str "Failed to encode docker auths from secret: " ++ e)
    | ok body ↦ ok body
  ]

  read_config : Secret → Option Text → Result Text
  unfolding encode_auths
  read_config secret none =
      err (str "TODO: ImagePullSecret " ++ (secret.name ++ str " is missing .dockerconfigjson"))
  read_config secret (some json) = encode_auths (unmarshal json)

  -- The credentials in a secret, as podman takes them.
  unfoldable pub auth_body : Secret → Result Text
  unfolding read_config
  auth_body secret =
      if text_eq secret.secret_type (str "kubernetes.io/dockerconfigjson")
      then read_config secret secret.docker_config_json
      else err (
          str "TODO: ImagePullSecret "
          ++ (secret.name ++ (str " has weird type " ++ secret.secret_type)))

  -- What one secret leads to: its credentials are bad, or they are tried.
  unfoldable pub secret_end : Text → Result Text → PullEnd
  unfolding pull_end
  secret_end image (err e) = PullEnd.failed e
  secret_end image (ok body) = pull_end (pull image (some body))

  -- A secret that is refused leaves it to the others.
  after_secret : Text → Option Text × List PullEvent → PullEnd → Option Text × List PullEvent
  after_secret image others PullEnd.pulled = (none, PullEvent.pulled_private image ∷ [])
  after_secret image others (PullEnd.failed e) = (some e, [])
  after_secret image others (PullEnd.refused e) = others

  -- The loop over the secrets, which ends with the outer `err`.
  unfoldable pub try_secrets : Text → Option Text → List Secret → Option Text × List PullEvent
  unfolding after_secret
  try_secrets image outer [] = (outer, [])
  try_secrets image outer (secret ∷ secrets) =
      after_secret image (try_secrets image outer secrets) (secret_end image (auth_body secret))

  after_public : Text → List Secret → Option Text → PullEnd → Option Text × List PullEvent
  unfolding try_secrets
  after_public image secrets outer PullEnd.pulled = (none, PullEvent.pulled_public image ∷ [])
  after_public image secrets outer (PullEnd.failed e) = (some e, [])
  after_public image secrets outer (PullEnd.refused e) = try_secrets image outer secrets

  -- The error that is returned, if any, and the events after the first.
  unfoldable pub pull_image : Text → List Secret → Option Text × List PullEvent
  unfolding after_public
  pull_image image secrets =
      after_public image secrets (request_error (pull image none)) (pull_end (pull image none))
