-- ===== src/Podman/Client/Pods/Stop.antt =====
-- pkg/podman/client-pod.go: when `PodStop` says that a pod has stopped.
use kube_pet_node.Prelude.{
  ◌++◌, Option, none, some, true, false, Bool-cases, ◌⊎◌, inl, inr, ◌==◌, ◌≡◌, refl, ap,
}
use kube_pet_node.Prelude.Text.{Text, str}
use kube_pet_node.Prelude.Result.{Result, ok, err}
use kube_pet_node.Podman.Client.{
  Transport, Request, Response, ApiError, Reply, Failure, is_success, from_result, decoded_error,
  on_response, perform_request, into_output, perform_json_request, perform_post, posted,
}
use kube_pet_node.Podman.Client.Pods.{
  PodActionReport, already_stopped, pod_path, null, stop_reply, pod_stop,
}

abbrev pub stop_request : Transport → Text → Request
stop_request t encoded =
    posted t (str "null") (str "http://podman/v1.0.0" ++ pod_path encoded (str "/stop"))

module _ (t : Transport) (decode : Text → Result PodActionReport) where
  -- The error of the answer has the status 304, itself or by its body.
  abbrev pub IsUnmodified : Response → Type 0
  IsUnmodified resp =
      ((resp.status_code == 304) ≡ true)
      ⊎ ((a : ApiError) × (t.decode_error resp.body ≡ ok a) × ((a.status == 304) ≡ true))

  -- podman answered that it did stop the pod, or that there was nothing to do.
  abbrev pub HasStopped : Response → PodActionReport → Type 0
  HasStopped resp r =
      ((is_success resp.status_code ≡ true) × (decode resp.body ≡ ok r))
      ⊎ ((is_success resp.status_code ≡ false) × IsUnmodified resp × (r ≡ already_stopped))

  report-ok :
      (x : Result PodActionReport) (r : PodActionReport)
      → stop_reply t (from_result x) ≡ Reply.reply r
      → x ≡ ok r
  unfolding stop_reply
  report-ok (ok out) r e = let same : out ≡ r = cc in ap ok same
  report-ok (err m) r e = cc

  api-stopped :
      (a : ApiError) (r : PodActionReport)
      → stop_reply t (Reply.failure (Failure.api a)) ≡ Reply.reply r
      → ((a.status == 304) ≡ true) × (r ≡ already_stopped)
  unfolding stop_reply
  api-stopped a r e = elim (Bool-cases (a.status == 304)) [
    | inl unmodified ↦
        let same : Reply.reply already_stopped ≡ Reply.reply r = rw unmodified at e in
        (unmodified, cc)
    | inr other ↦ let no' : Reply.failure (Failure.api a) ≡ Reply.reply r = rw other at e in cc
  ]

  error-stopped :
      (req : Request) (x : Result ApiError) (r : PodActionReport)
      → stop_reply t (into_output t decode (decoded_error t req x)) ≡ Reply.reply r
      → ((a : ApiError) × (x ≡ ok a) × ((a.status == 304) ≡ true)) × (r ≡ already_stopped)
  unfolding into_output decoded_error stop_reply
  error-stopped req (ok a) r e =
      let (unmodified, same) = api-stopped (record a { request = req }) r e in
      ((a, refl, unmodified), same)
  error-stopped req (err m) r e = cc

  response-HasStopped :
      (req : Request) (resp : Response) (r : PodActionReport)
      → stop_reply t (into_output t decode (on_response t req (ok resp))) ≡ Reply.reply r
      → HasStopped resp r
  unfolding on_response into_output
  response-HasStopped req resp r e = elim (Bool-cases (is_success resp.status_code)) [
    | inl good ↦ inl (good, report-ok (decode resp.body) r (rw good at e))
    | inr bad ↦ elim (Bool-cases (resp.status_code == 304)) [
      | inl unmodified ↦ inr (bad, inl unmodified, (api-stopped _ r (rw (bad, unmodified) at e)).1)
      | inr other ↦
          let (found, same) =
            error-stopped req (t.decode_error resp.body) r (rw (bad, other) at e) in
          inr (bad, inr found, same)
    ]
  ]

  exchange-HasStopped :
      (req : Request) (x : Result Response) (r : PodActionReport)
      → t.exchange req ≡ x
      → stop_reply t (into_output t decode (on_response t req x)) ≡ Reply.reply r
      → (resp : Response) × (t.exchange req ≡ ok resp) × HasStopped resp r
  unfolding on_response into_output stop_reply
  exchange-HasStopped req (err m) r asked e = cc
  exchange-HasStopped req (ok resp) r asked e = (resp, asked, response-HasStopped req resp r e)

  path-HasStopped :
      (encoded : Text) (bad_url : Option Text) (r : PodActionReport)
      → t.url_error (str "http://podman/v1.0.0" ++ pod_path encoded (str "/stop")) ≡ bad_url
      → stop_reply t (perform_post t (pod_path encoded (str "/stop")) null decode) ≡ Reply.reply r
      → (resp : Response) × (t.exchange (stop_request t encoded) ≡ ok resp) × HasStopped resp r
  unfolding perform_post perform_json_request perform_request
  path-HasStopped encoded none r valid e =
      exchange-HasStopped (stop_request t encoded) (t.exchange (stop_request t encoded)) r refl
        (rw valid at e)
  path-HasStopped encoded (some m) r valid e =
      let no' : Reply.panics ≡ Reply.reply r = unfold stop_reply in (rw valid at e) in cc

  name-HasStopped :
      (x : Result Text) (name : Text) (r : PodActionReport)
      → t.url_encoded name ≡ x
      → pod_stop t decode name ≡ Reply.reply r
      → (encoded : Text) × (resp : Response) × (t.url_encoded name ≡ ok encoded)
        × (t.exchange (stop_request t encoded) ≡ ok resp)
        × HasStopped resp r
  unfolding pod_stop
  name-HasStopped (err m) name r named e =
      let no' : Reply.failure (Failure.other m) ≡ Reply.reply r = rw named at e in cc
  name-HasStopped (ok encoded) name r named e =
      let (resp, asked, stopped) = path-HasStopped encoded _ r refl (rw named at e) in
      (encoded, resp, named, asked, stopped)

  -- `PodStop` gives a report only when it sent its request to podman and got an answer: either the
  -- status of a success with a body that is the report, or an error whose status, or whose body's, is
  -- 304, for which the report is that the pod had already stopped.
  pub pod_stop-HasStopped :
      (name : Text) (r : PodActionReport)
      → pod_stop t decode name ≡ Reply.reply r
      → (encoded : Text) × (resp : Response) × (t.url_encoded name ≡ ok encoded)
        × (t.exchange (stop_request t encoded) ≡ ok resp)
        × HasStopped resp r
  pod_stop-HasStopped name r e = name-HasStopped (t.url_encoded name) name r refl e
