-- ===== src/Podman/Client/Containers.antt =====
-- pkg/podman/client-container.go and client-exec.go: the requests on containers and on the commands that
-- run in them. The reading of each report is an argument.
use kube_pet_node.Prelude.{[], ◌∷◌, ◌++◌, some, Bool, if◌then◌else◌}
use kube_pet_node.Prelude.Text.{Text, str, text_eq}
use kube_pet_node.Prelude.Result.{Result}
use kube_pet_node.Podman.Client.{
  Transport, Reply, Response, perform_request, perform_raw_request, perform_get, perform_post,
  perform_empty_post, with_name, at_path,
}

pub record ContainerLogsOptions : Type 0 where
  pub follow : Bool
  pub since : Text
  pub until : Text
  pub timestamps : Bool
  pub tail : Text

abbrev flag : Bool → Text → Text
flag on text = if on then text else []

-- A text that is not empty is passed on as it is.
abbrev valued : Text → Text → Text
valued name value = if text_eq value [] then [] else name ++ value

unfoldable pub log_flags : ContainerLogsOptions → Text
log_flags options =
    str "?stdout=true&stderr=true"
    ++ (flag options.follow (str "&follow=true")
        ++ (flag options.timestamps (str "&timestamps=true")
            ++ (valued (str "&since=") options.since
                ++ (valued (str "&until=") options.until ++ valued (str "&tail=") options.tail))))

abbrev container_path : Text → Text → Text
container_path encoded rest = str "/libpod/containers/" ++ (encoded ++ rest)

abbrev exec_path : Text → Text → Text
exec_path id rest = str "/libpod/exec/" ++ (id ++ rest)

module _ (t : Transport) where
  module _ {A : Type 0} (decode : Text → Result A) where
    unfoldable pub container_create : Result Text → Reply A
    container_create spec = perform_post t (str "/libpod/containers/create") spec decode

    unfoldable pub container_inspect : Text → Bool → Reply A
    container_inspect name include_size = with_name t name (λ encoded.
        perform_get t (container_path encoded (str "/json" ++ flag include_size (str "?size=true")))
          decode)

    unfoldable pub container_stats : Reply A
    container_stats = perform_get t (str "/libpod/containers/stats?stream=false") decode

    -- The session, whose id the decoder reads.
    unfoldable pub container_exec : Text → Result Text → Reply A
    container_exec name options =
        with_name t name
          (λ encoded. perform_post t (container_path encoded (str "/exec")) options decode)

    unfoldable pub exec_inspect : Text → Reply A
    exec_inspect id = perform_get t (exec_path id (str "/json")) decode

  -- The body of the response is read as packets.
  unfoldable pub container_logs : Text → ContainerLogsOptions → Reply Response
  unfolding log_flags
  container_logs name options = with_name t name (λ encoded.
      perform_raw_request t (str "GET") (container_path encoded (str "/logs" ++ log_flags options)))

  unfoldable pub exec_resize : Text → Result Text → Reply (Unit {0})
  exec_resize id new_size = perform_empty_post t (exec_path id (str "/resize")) new_size

  unfoldable pub exec_start : Text → Reply Response
  exec_start id = at_path t (exec_path id (str "/start")) (λ url. perform_request t (record {
    method = str "POST";
    url = url;
    headers =
        (str "content-type", str "application/json")
        ∷ (str "connection", str "upgrade")
        ∷ (str "upgrade", str "tcp")
        ∷ [];
    body = some (str "{}");
  }))
