-- ===== src/Podman/Examples.antt =====
-- The theorems on the client, applied to two packets and to a podman whose pods are stopped.
use kube_pet_node.Prelude.{List, [], ◌∷◌, ◌++◌, flat_map, none, some, true, false, ◌≡◌, refl, arith}
use kube_pet_node.Prelude.Text.{Text, str}
use kube_pet_node.Prelude.Result.{Result, ok, err}
use kube_pet_node.Podman.Demux.{
  Stream, Writes, DemuxEnd, Refusal, read_header, stream_of, demux_raw_stream,
}
use kube_pet_node.Podman.Demux.Frames.{Packet, frame, packet_writes, demux_raw_stream-frames}
use kube_pet_node.Podman.Demux.Total.{demux_raw_stream-ends}
use kube_pet_node.Podman.Client.{
  Transport, Response, Reply, perform_post, perform_json_request, perform_request, is_success,
}
use kube_pet_node.Podman.Client.{perform_get}
use kube_pet_node.Podman.Client.Objects.{PullJson, StreamEnd, pull_stream}
use kube_pet_node.Podman.Client.Pods.{PodActionReport, already_stopped, pod_stop}
use kube_pet_node.Podman.Client.Pods.Stop.{stop_request, HasStopped, pod_stop-HasStopped}

abbrev willing : Writes → Stream → Text → Refusal
willing done output t = none

-- The error output takes one byte and is closed.
abbrev closed_stderr : Writes → Stream → Text → Refusal
closed_stderr done Stream.stdout t = none
closed_stderr done Stream.stderr t = some (1, str "closed pipe")

abbrev packets : List Packet
packets = (Stream.stdout, 72 ∷ 105 ∷ []) ∷ (Stream.stderr, 33 ∷ 63 ∷ []) ∷ (Stream.stdout, []) ∷ []

demux_raw_stream-frames_example :
    demux_raw_stream willing true (flat_map frame packets)
    ≡ some (flat_map (packet_writes true) packets, DemuxEnd.eof)
demux_raw_stream-frames_example =
    demux_raw_stream-frames willing true (λ done output t. refl) packets
      (omega arith, (omega arith, (omega arith, tt)))

demux_raw_stream-ends_example :
    (r : Writes × DemuxEnd) × (demux_raw_stream closed_stderr false (1 ∷ 0 ∷ []) ≡ some r)
demux_raw_stream-ends_example = demux_raw_stream-ends closed_stderr false (1 ∷ 0 ∷ [])

-- A refused write ends the loop, whatever comes behind it; what was taken of the packet stays written.
refused_write :
    demux_raw_stream closed_stderr false (flat_map frame packets ++ 2 ∷ 0 ∷ [])
    ≡ some (
      (Stream.stdout, 72 ∷ 105 ∷ []) ∷ (Stream.stderr, 33 ∷ []) ∷ [],
      DemuxEnd.refused (str "closed pipe"),
    )
unfolding demux_raw_stream read_header stream_of str
refused_write = refl

abbrev stopped : Transport
stopped = record {
  exchange = λ req. ok (record { status_code = 304; status = str "304 Not Modified"; body = [] });
  url_error = λ url. none;
  url_encoded = λ name. ok name;
  decode_error = λ body. err (str "EOF");
}

abbrev no_report : Text → Result PodActionReport
no_report body = err (str "EOF")

stopped_reply : pod_stop stopped no_report (str "default_web") ≡ Reply.reply already_stopped
unfolding pod_stop perform_post perform_json_request perform_request is_success
stopped_reply = refl

pod_stop-HasStopped_example :
    (encoded : Text) × (resp : Response) × (ok (str "default_web") ≡ ok encoded)
    × (stopped.exchange (stop_request stopped encoded) ≡ ok resp)
    × HasStopped stopped no_report resp already_stopped
pod_stop-HasStopped_example =
    pod_stop-HasStopped stopped no_report (str "default_web") already_stopped stopped_reply

abbrev pull_json : PullJson
pull_json = record {
  read_array = λ chunk. ok [];
  read_report = λ chunk. ok (record { stream = chunk; error = []; images = [] });
}

-- An empty line ends the goroutine by a panic.
empty_line :
    pull_stream pull_json (str "{}" ∷ [] ∷ str "{}" ∷ [])
    ≡ (record { stream = str "{}"; error = []; images = [] } ∷ [], StreamEnd.panicked)
unfolding pull_stream str
empty_line = refl

-- A URL that cannot be parsed makes the request nil.
nil_request :
    perform_get
      (record stopped { url_error = λ url. some (str "invalid URL") })
      (str "/a b")
      no_report
    ≡ Reply.panics
unfolding perform_get
nil_request = refl
