-- ===== src/Pods/ImagePull/Swallow.antt =====
-- controllers/pods/image-pull.go: which error `PullImage` returns when every pull is refused.
use kube_pet_node.Prelude.{List, [], ◌∷◌, Option, none, ◌≡◌, refl, ap, ◌∙◌}
use kube_pet_node.Prelude.Text.{Text}
use kube_pet_node.Prelude.{All}
use kube_pet_node.Prelude.Result.{Result}
use kube_pet_node.Pods.ImagePull.{
  Secret, ImagePullReport, PullEnd, pull_end, auth_body, secret_end, try_secrets, pull_image,
  request_error, after_secret,
}

module _ {Auths : Type 0} (unmarshal : Text → Result Auths) (marshal : Auths → Result Text)
    (pull : Text → Option Text → Result (List ImagePullReport)) where
  -- The pull with the secret's credentials ends with an error that says "unauthorized".
  abbrev pub IsRefused : Text → Secret → Type 0
  IsRefused image secret =
      (e : Text) × (secret_end unmarshal marshal pull image
          (auth_body unmarshal marshal pull secret)
        ≡ PullEnd.refused e)

  try_secrets_refused :
      (image : Text) (outer : Option Text) (secrets : List Secret)
      → All (IsRefused image) secrets
      → try_secrets unmarshal marshal pull image outer secrets ≡ (outer, [])
  unfolding try_secrets after_secret
  try_secrets_refused image outer [] h = refl
  try_secrets_refused image outer (s ∷ ss) ((e, refused), hs) =
      ap
        (after_secret unmarshal marshal pull image
          (try_secrets unmarshal marshal pull image outer ss))
        refused
      ∙ try_secrets_refused image outer ss hs

  -- When the public pull and that with every secret are refused, `PullImage` returns the error of
  -- the first request to podman, which is none if a stream answered it, and sends no event that
  -- says the image was pulled.
  pub pull_image-refused :
      (image e : Text) (secrets : List Secret)
      → pull_end (pull image none) ≡ PullEnd.refused e
      → All (IsRefused image) secrets
      → pull_image unmarshal marshal pull image secrets ≡ (request_error (pull image none), [])
  unfolding pull_image
  pull_image-refused image e secrets h hs =
      rw h (try_secrets_refused image (request_error (pull image none)) secrets hs)
