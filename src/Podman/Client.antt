-- ===== src/Podman/Client.antt =====
-- pkg/podman/client.go: a request to podman, and how its answer leads to a value or an error. The HTTP
-- exchange, net/url and encoding/json are parameters.
pub mod Pods
pub mod Containers
pub mod Objects
use kube_pet_node.Prelude.{
  ℕ, List, [], ◌∷◌, ◌++◌, Option, none, some, Bool, ltb, leb, ◌==◌, ◌&&◌, ◌||◌, if◌then◌else◌,
}
use kube_pet_node.Prelude.Text.{Text, str, format_uint}
use kube_pet_node.Prelude.Assoc.{Assoc}
use kube_pet_node.Prelude.Result.{Result, ok, err}

pub record Request : Type 0 where
  pub method : Text
  pub url : Text
  pub headers : Assoc Text
  pub body : Option Text

pub record Response : Type 0 where
  pub status_code : ℕ
  pub status : Text
  pub body : Text

pub record ApiError : Type 0 where
  pub request : Request
  pub cause : Text
  pub message : Text
  pub status : ℕ

pub data Failure : Type 0 where
  api : ApiError → Failure
  other : Text → Failure

-- A nil pointer that is used makes the call panic.
pub data Reply {ℓ} (A : Type ℓ) : Type ℓ where
  reply : A → Reply A
  failure : Failure → Reply A
  panics : Reply A

pub record Transport : Type 0 where
  pub exchange : Request → Result Response
  -- why a text is no URL for http.NewRequest
  pub url_error : Text → Option Text
  -- what `UrlEncoded` makes of a name
  pub url_encoded : Text → Result Text
  -- the members that the JSON text of an error sets
  pub decode_error : Text → Result ApiError

unfoldable pub is_success : ℕ → Bool
is_success status = (status == 101) || (leb 200 status && ltb status 300)

abbrev pub from_result : {A : Type 0} → Result A → Reply A
from_result (ok a) = Reply.reply a
from_result (err e) = Reply.failure (Failure.other e)

module _ (t : Transport) where
  decoded_error : Request → Result ApiError → Reply Response
  decoded_error req (err e) = Reply.failure (Failure.other e)
  decoded_error req (ok e) = Reply.failure (Failure.api (record e { request = req }))

  on_response : Request → Result Response → Reply Response
  unfolding decoded_error is_success
  on_response req (err e) = Reply.failure (Failure.other e)
  on_response req (ok resp) =
      if is_success resp.status_code
      then Reply.reply resp
      else (if resp.status_code == 304
          then Reply.failure (
              Failure.api
                (record { request = req; cause = resp.status; message = []; status = 304 }))
          else decoded_error req (t.decode_error resp.body))

  unfoldable pub perform_request : Request → Reply Response
  unfolding on_response
  perform_request req = on_response req (t.exchange req)

  module _ {A : Type 0} (decode : Text → Result A) where
    into_output : Reply Response → Reply A
    into_output (Reply.failure e) = Reply.failure e
    into_output Reply.panics = Reply.panics
    into_output (Reply.reply resp) = from_result (decode resp.body)

    -- With an output.
    unfoldable pub perform_json_request : Request → Reply A
    unfolding into_output perform_request
    perform_json_request req = into_output (perform_request req)

  into_nothing : Reply Response → Reply (Unit {0})
  into_nothing (Reply.failure e) = Reply.failure e
  into_nothing Reply.panics = Reply.panics
  into_nothing (Reply.reply resp) =
      if (resp.status_code == 201) || (resp.status_code == 204)
      then Reply.reply tt
      else Reply.failure (
          Failure.other (
            str "Client caller didn't expect a body, but we got an HTTP "
            ++ format_uint resp.status_code))

  -- With a nil output.
  unfoldable pub perform_empty_request : Request → Reply (Unit {0})
  unfolding into_nothing perform_request
  perform_empty_request req = into_nothing (perform_request req)

  -- A header is set on the request before the error of its making is looked at.
  abbrev pub with_url : {A : Type 0} → Text → Option Text → (Text → Reply A) → Reply A
  with_url path (some e) run = Reply.panics
  with_url path none run = run (str "http://podman/v1.0.0" ++ path)

  abbrev pub at_path : {A : Type 0} → Text → (Text → Reply A) → Reply A
  at_path path run = with_url path (t.url_error (str "http://podman/v1.0.0" ++ path)) run

  abbrev pub with_text : {A : Type 0} → Result Text → (Text → Reply A) → Reply A
  with_text (err e) run = Reply.failure (Failure.other e)
  with_text (ok text) run = run text

  abbrev pub plain : Text → Text → Request
  plain method url = record {
    method = method;
    url = url;
    headers = (str "accept", str "application/json") ∷ [];
    body = none;
  }

  abbrev pub posted : Text → Text → Request
  posted body url = record {
    method = str "POST";
    url = url;
    headers =
        (str "content-type", str "application/json") ∷ (str "accept", str "application/json") ∷ [];
    body = some body;
  }

  unfoldable pub perform_raw_request : Text → Text → Reply Response
  perform_raw_request method path = at_path path (λ url. perform_request (plain method url))

  module _ {A : Type 0} where
    unfoldable pub perform_get : Text → (Text → Result A) → Reply A
    perform_get path decode =
        at_path path (λ url. perform_json_request decode (plain (str "GET") url))

    -- The input as JSON, or the error of its encoding.
    unfoldable pub perform_post : Text → Result Text → (Text → Result A) → Reply A
    perform_post path input decode =
        with_text input
          (λ body. at_path path (λ url. perform_json_request decode (posted body url)))

    unfoldable pub perform_delete : Text → (Text → Result A) → Reply A
    perform_delete path decode =
        at_path path (λ url. perform_json_request decode (plain (str "DELETE") url))

    abbrev pub with_name : Text → (Text → Reply A) → Reply A
    with_name name run = with_text (t.url_encoded name) run

  -- A POST and a DELETE whose output is nil.
  unfoldable pub perform_empty_post : Text → Result Text → Reply (Unit {0})
  perform_empty_post path input =
      with_text input (λ body. at_path path (λ url. perform_empty_request (posted body url)))

  unfoldable pub perform_empty_delete : Text → Reply (Unit {0})
  perform_empty_delete path = at_path path (λ url. perform_empty_request (plain (str "DELETE") url))

  abbrev pub forced : Bool → Text → Text
  forced force path = if force then path ++ str "?force=true" else path
