-- ===== src/Pods/Provider/Containers/Retry.antt =====
-- controllers/pods/provider.go: the second attempt to make a container, after a pull on the spot.
use kube_pet_node.Prelude.{
  ℕ, ◌+◌, List, [], ◌∷◌, ◌++◌, Option, Option-cases, none, some, Bool, Bool-cases, ◌&&◌, true,
  false, inl, inr, ◌≡◌, ◌↔◌, refl, ap, ◌∙◌, arith,
}
use kube_pet_node.Prelude.Text.{Text, str, text_eq, text_eq_sound}
use kube_pet_node.Pods.Kube.{Pod, Container}
use kube_pet_node.Prelude.Result.{Result}
use kube_pet_node.Pods.ImagePull.{Secret, pull_image}
use kube_pet_node.Pods.Convert.Spec.{SpecGenerator, convert_container_config}
use kube_pet_node.Prelude.Run.{◌>>=◌, ◌>>◌, Outcome}
use kube_pet_node.Pods.Provider.Node.{Node, Answers, PodmanCall, call}
use kube_pet_node.Pods.Provider.Containers.{
  create_container, has_suffix, pulls_on_spot, retry_container, pull_for, pull_first, spec_for,
  after_create, pull_outcome, creation_outcome,
}

-- How many of the calls ask for a container.
abbrev pub creations : List PodmanCall → ℕ
creations [] = 0
creations (PodmanCall.container_create spec ∷ calls) = creations calls + 1
creations (PodmanCall.pod_create generator ∷ calls) = creations calls
creations (PodmanCall.image_pull image ∷ calls) = creations calls
creations (PodmanCall.pod_start id ∷ calls) = creations calls
creations (PodmanCall.pod_stop id ∷ calls) = creations calls
creations (PodmanCall.pod_rm id ∷ calls) = creations calls

creations-append : (xs ys : List PodmanCall) → creations (xs ++ ys) ≡ creations xs + creations ys
creations-append [] ys = omega arith
creations-append (PodmanCall.container_create spec ∷ xs) ys = omega (arith, creations-append xs ys)
creations-append (PodmanCall.pod_create generator ∷ xs) ys = creations-append xs ys
creations-append (PodmanCall.image_pull image ∷ xs) ys = creations-append xs ys
creations-append (PodmanCall.pod_start id ∷ xs) ys = creations-append xs ys
creations-append (PodmanCall.pod_stop id ∷ xs) ys = creations-append xs ys
creations-append (PodmanCall.pod_rm id ∷ xs) ys = creations-append xs ys

both : (a b : Bool) → (a && b) ≡ true → (a ≡ true) × (b ≡ true)
both true b h = (refl, h)
both false b h = cc

if_not_present :
    (policy : Text)
    → text_eq policy (str "IfNotPresent") ≡ true
    → text_eq policy (str "Always") ≡ false
unfolding text_eq str
if_not_present policy h = rw (text_eq_sound policy (str "IfNotPresent") h) refl

module _ {Auths : Type 0} (unmarshal : Text → Result Auths) (marshal : Auths → Result Text)
    (a : Answers) where
  -- Why a second container is asked for, with the configuration `retried`: the first request, for
  -- `spec`, failed with `e`, which says that there is no image; the policy is to pull it then; the
  -- pull succeeded; and the second configuration could be made, for a pod with the id in the report of
  -- the request that failed.
  abbrev pub IsRetry :
      List Secret → Text → Container → Pod → SpecGenerator → SpecGenerator → Text → Type 0
  IsRetry secrets pod_id con pod spec retried e =
      (convert_container_config a.total_memory pod con pod_id ≡ some spec)
      × ((a.container_create 0 spec).error ≡ some e)
      × (has_suffix e (str "no such image") ≡ true)
      × (text_eq con.image_pull_policy (str "IfNotPresent") ≡ true)
      × ((pull_image unmarshal marshal a.pull con.image secrets).0 ≡ none)
      × (convert_container_config a.total_memory pod con (a.container_create 0 spec).id
          ≡ some retried)

  retry_container-again :
      (secrets : List Secret) (con : Container) (id : Text) (n : Node)
      → creations (retry_container unmarshal marshal a secrets con id n).0.calls
        ≡ creations n.calls + 1
      → ((pull_image unmarshal marshal a.pull con.image secrets).0 ≡ none)
        × (retried : SpecGenerator) × (convert_container_config a.total_memory n.pod con id
            ≡ some retried)
  unfolding retry_container pull_for pull_outcome spec_for ◌>>=◌
  retry_container-again secrets con id n h =
      let pulls : List PodmanCall = PodmanCall.image_pull con.image ∷ [] in
      elim (Option-cases (pull_image unmarshal marshal a.pull con.image secrets).0) [
        | inr (e, failed) ↦
            (let no : creations (n.calls ++ pulls) ≡ creations n.calls + 1 = rw failed at h in
              absurd (omega (arith, no, creations-append n.calls pulls)))
        | inl pulled ↦ elim (Option-cases (convert_container_config a.total_memory n.pod con id)) [
          | inr (retried, made) ↦ (pulled, retried, made)
          | inl none' ↦
              (let no : creations (n.calls ++ pulls) ≡ creations n.calls + 1 =
                  rw none' at (rw pulled at h) in
                absurd (omega (arith, no, creations-append n.calls pulls)))
        ]
      ]

  after_create-again :
      (secrets : List Secret) (con : Container) (id : Text) (error : Option Text) (n : Node)
      → creations (after_create unmarshal marshal a secrets con id error n).0.calls
        ≡ creations n.calls + 1
      → (e : Text) × (error ≡ some e)
        × (pulls_on_spot e con ≡ true)
        × (creations (retry_container unmarshal marshal a secrets con id n).0.calls
            ≡ creations n.calls + 1)
  unfolding after_create
  after_create-again secrets con id none n h =
      let no : creations n.calls ≡ creations n.calls + 1 = h in absurd (omega (arith, no))
  after_create-again secrets con id (some e) n h = elim (Bool-cases (pulls_on_spot e con)) [
    | inl spot ↦ (e, refl, spot, rw spot at h)
    | inr other ↦
        (let no : creations n.calls ≡ creations n.calls + 1 = rw other at h in
          absurd (omega (arith, no)))
  ]

  -- The same node after a pull for "Always", and after the first request.
  abbrev requested : SpecGenerator → Node → Node
  requested spec n = record n { calls = n.calls ++ (PodmanCall.container_create spec ∷ []) }

  first_pull-again :
      (secrets : List Secret) (pod_id : Text) (con : Container) (n : Node)
      → creations
          ((do
            spec ← spec_for unmarshal marshal a con pod_id
            call (PodmanCall.container_create spec)
            after_create unmarshal marshal a secrets con
                (a.container_create 0 spec).id
                (a.container_create 0 spec).error)
            n).0.calls
        ≡ creations n.calls + 2
      → (spec retried : SpecGenerator) × (e : Text) × IsRetry secrets pod_id con n.pod spec retried
          e
  unfolding spec_for ◌>>=◌ pulls_on_spot
  first_pull-again secrets pod_id con n h =
      elim (Option-cases (convert_container_config a.total_memory n.pod con pod_id)) [
        | inl none' ↦
            (let no : creations n.calls ≡ creations n.calls + 2 = rw none' at h in
              absurd (omega (arith, no)))
        | inr (spec, made) ↦
            (let more : List PodmanCall = PodmanCall.container_create spec ∷ [] in
              let again : creations
                    (after_create unmarshal marshal a secrets con (a.container_create 0 spec).id
                      (a.container_create 0 spec).error (requested spec n)).0.calls
                  ≡ creations n.calls + 2 =
                rw made at h in
              let (e, failed, spot, retry) =
                after_create-again secrets con (a.container_create 0 spec).id
                  (a.container_create 0 spec).error (requested spec n)
                  (again ∙ omega (arith, creations-append n.calls more)) in
              let (missing, lazy) =
                both (has_suffix e (str "no such image"))
                  (text_eq con.image_pull_policy (str "IfNotPresent")) spot in
              let (pulled, retried, second) =
                retry_container-again secrets con (a.container_create 0 spec).id (requested spec n)
                  retry in
              (spec, retried, e, (made, failed, missing, lazy, pulled, second)))
      ]

  create_container-again :
      (secrets : List Secret) (pod_id : Text) (con : Container) (n : Node)
      → creations (create_container unmarshal marshal a secrets pod_id con n).0.calls
        ≡ creations n.calls + 2
      → (spec retried : SpecGenerator) × (e : Text) × IsRetry secrets pod_id con n.pod spec retried
          e
  unfolding create_container pull_first pull_for pull_outcome ◌>>=◌
  create_container-again secrets pod_id con n h =
      elim (Bool-cases (text_eq con.image_pull_policy (str "Always"))) [
        | inr other ↦ first_pull-again secrets pod_id con n (rw other at h)
        | inl always ↦
            (let pulls : List PodmanCall = PodmanCall.image_pull con.image ∷ [] in
              elim (Option-cases (pull_image unmarshal marshal a.pull con.image secrets).0) [
                | inr (e, failed) ↦
                    (let no : creations (n.calls ++ pulls) ≡ creations n.calls + 2 =
                        rw failed at (rw always at h) in
                      absurd (omega (arith, no, creations-append n.calls pulls)))
                | inl pulled ↦
                    first_pull-again secrets pod_id con (record n { calls = n.calls ++ pulls })
                      ((rw pulled at (rw always at h))
                        ∙ omega (arith, creations-append n.calls pulls))
              ])
      ]

  -- Some second request is made with its reasons.
  abbrev pub Retries : List Secret → Text → Container → Node → Type 0
  Retries secrets pod_id con n =
      (spec retried : SpecGenerator) × (e : Text) × IsRetry secrets pod_id con n.pod spec retried e

  -- The first request, the pull and the second request are the calls, and the answer to the second
  -- request is the result.
  abbrev pub Retried : List Secret → Text → Container → Node → Type 0
  Retried secrets pod_id con n =
      (spec retried : SpecGenerator) × (e : Text) × IsRetry secrets pod_id con n.pod spec retried e
      × (create_container unmarshal marshal a secrets pod_id con n ≡ (
        record n {
          calls =
              ((n.calls ++ (PodmanCall.container_create spec ∷ []))
                ++ (PodmanCall.image_pull con.image ∷ []))
              ++ (PodmanCall.container_create retried ∷ []);
        },
        creation_outcome (a.container_create 1 retried),
      ))

  Retries-Retried :
      (secrets : List Secret) (pod_id : Text) (con : Container) (n : Node)
      → Retries secrets pod_id con n
      → Retried secrets pod_id con n
  unfolding create_container pull_first spec_for after_create retry_container pull_for pull_outcome
      pulls_on_spot ◌>>=◌
  Retries-Retried secrets pod_id con n
        (spec, retried, e, (made, failed, missing, lazy, pulled, second)) =
      (
        spec,
        retried,
        e,
        (made, failed, missing, lazy, pulled, second),
        rw (if_not_present con.image_pull_policy lazy, made, failed, missing, lazy, pulled, second)
            refl,
      )

  Retried-twice :
      (secrets : List Secret) (pod_id : Text) (con : Container) (n : Node)
      → Retried secrets pod_id con n
      → creations (create_container unmarshal marshal a secrets pod_id con n).0.calls
        ≡ creations n.calls + 2
  Retried-twice secrets pod_id con n (spec, retried, e, why, ran) =
      let first : List PodmanCall = n.calls ++ (PodmanCall.container_create spec ∷ []) in
      let pulls : List PodmanCall = PodmanCall.image_pull con.image ∷ [] in
      ap (λ (r : Node × Outcome Text). creations r.0.calls) ran
      ∙ omega (
        arith,
        creations-append (first ++ pulls) (PodmanCall.container_create retried ∷ []),
        creations-append first pulls,
        creations-append n.calls (PodmanCall.container_create spec ∷ []),
      )

  -- A container is asked for a second time exactly when the first request, for a pod with the given
  -- id, failed with an error that ends with "no such image", the policy is to pull a missing image,
  -- the pull succeeded, and the second configuration could be made, for a pod whose id is that in the
  -- report of the failed request. Then the calls are the first request, the pull and the second
  -- request, and the answer to the second request is the result.
  pub create_container-retry :
      (secrets : List Secret) (pod_id : Text) (con : Container) (n : Node)
      → ((creations (create_container unmarshal marshal a secrets pod_id con n).0.calls
            ≡ creations n.calls + 2)
          ↔ Retries secrets pod_id con n)
        × (Retries secrets pod_id con n ↔ Retried secrets pod_id con n)
  create_container-retry secrets pod_id con n = (
    (
      create_container-again secrets pod_id con n,
      λ why. Retried-twice secrets pod_id con n (Retries-Retried secrets pod_id con n why),
    ),
    (Retries-Retried secrets pod_id con n, λ (spec, retried, e, why, ran). (spec, retried, e, why)),
  )
