-- ===== src/Podman/Client/Objects.antt =====
-- pkg/podman/client-volume.go, client-network.go, client-system.go, client-image.go and
-- client-events.go: the other requests, and the lines that podman streams.
use kube_pet_node.Prelude.{List, [], ◌∷◌, ◌++◌, Option, none, some, Bool, ◌==◌, if◌then◌else◌}
use kube_pet_node.Prelude.Text.{Text, str}
use kube_pet_node.Prelude.Result.{Result, ok, err}
use kube_pet_node.Pods.ImagePull.{ImagePullReport}
use kube_pet_node.Podman.Client.{
  Transport, Reply, Failure, Request, Response, perform_request, perform_raw_request, perform_get,
  perform_post, perform_empty_delete, with_name, with_text, forced,
}

-- How a goroutine that reads a stream ends.
pub data StreamEnd : Type 0 where
  closed : StreamEnd
  panicked : StreamEnd

-- encoding/json on a line of the pull's stream.
pub record PullJson : Type 0 where
  pub read_array : Text → Result (List ImagePullReport)
  pub read_report : Text → Result ImagePullReport

abbrev failed : Text → List ImagePullReport
failed e = record { stream = []; error = e; images = [] } ∷ []

abbrev then_rest :
    List ImagePullReport → List ImagePullReport × StreamEnd → List ImagePullReport × StreamEnd
then_rest events (rest, end) = (events ++ rest, end)

-- A line that cannot be read ends the loop.
read_events :
    Result (List ImagePullReport)
    → List ImagePullReport × StreamEnd
    → List ImagePullReport × StreamEnd
read_events (err e) rest = (failed e, StreamEnd.closed)
read_events (ok events) rest = then_rest events rest

one_event : Result ImagePullReport → Result (List ImagePullReport)
one_event (err e) = err e
one_event (ok event) = ok (event ∷ [])

-- The first byte of an empty line is read, which panics.
unfoldable pub pull_stream : PullJson → List Text → List ImagePullReport × StreamEnd
unfolding read_events one_event
pull_stream json [] = ([], StreamEnd.closed)
pull_stream json ([] ∷ lines) = ([], StreamEnd.panicked)
pull_stream json ((c ∷ chunk) ∷ lines) =
    let rest = pull_stream json lines in
    if c == b'['
    then read_events (json.read_array (c ∷ chunk)) rest
    else read_events (one_event (json.read_report (c ∷ chunk))) rest

-- The events up to the first line that cannot be read.
unfoldable pub event_stream : {Event : Type 0} → (Text → Result Event) → List Text → List Event
event_stream read [] = []
event_stream read (chunk ∷ lines) =
    let rest = event_stream read lines in elim (read chunk) [ err e ↦ [] | ok event ↦ event ∷ rest ]

module _ (t : Transport) where
  module _ {A : Type 0} (decode : Text → Result A) where
    unfoldable pub volume_create : Result Text → Reply A
    volume_create opts = perform_post t (str "/libpod/volumes/create") opts decode

    unfoldable pub volume_inspect : Text → Reply A
    volume_inspect name =
        with_name t name
          (λ encoded. perform_get t (str "/libpod/volumes/" ++ (encoded ++ str "/json")) decode)

    -- The filters as JSON.
    unfoldable pub volume_list : Result Text → Reply A
    volume_list filters = with_text t filters (λ serialized.
        with_name t serialized
          (λ encoded. perform_get t (str "/libpod/volumes/json?filters=" ++ encoded) decode))

    unfoldable pub network_inspect : Text → Reply A
    network_inspect name =
        with_name t name
          (λ encoded. perform_get t (str "/libpod/networks/" ++ (encoded ++ str "/json")) decode)

    unfoldable pub network_list : Reply A
    network_list = perform_get t (str "/libpod/networks/json") decode

    unfoldable pub version : Reply A
    version = perform_get t (str "/libpod/version") decode

    unfoldable pub image_list : Reply A
    image_list = perform_get t (str "/libpod/images/json") decode

  unfoldable pub volume_rm : Text → Bool → Reply (Unit {0})
  volume_rm name force =
      with_name t name
        (λ encoded. perform_empty_delete t (str "/libpod/volumes/" ++ forced t force encoded))

  unfoldable pub stream_events : Reply Response
  stream_events = perform_raw_request t (str "GET") (str "/libpod/events")

  pull_request : Text → Option Text → Request
  pull_request url auth = record {
    method = str "POST";
    url = url;
    headers =
        (str "accept", str "application/json")
        ∷ (elim auth [ none ↦ [] | some config ↦ (str "x-registry-auth", config) ∷ [] ]);
    body = none;
  }

  pull_at : Text → Option Text → Option Text → Reply Response
  unfolding pull_request
  pull_at url auth (some e) = Reply.failure (Failure.other e)
  pull_at url auth none = perform_request t (pull_request url auth)

  -- `Pull` with the auth file in base64; here the error of the request's making is looked at first.
  unfoldable pub pull : Text → Option Text → Reply Response
  unfolding pull_at
  pull reference auth = with_name t reference (λ encoded.
      let url : Text =
        str "http://podman/v1.0.0" ++ (str "/libpod/images/pull?reference=" ++ encoded) in
      pull_at url auth (t.url_error url))
