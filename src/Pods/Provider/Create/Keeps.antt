-- ===== src/Pods/Provider/Create/Keeps.antt =====
-- controllers/pods/provider.go: `CreatePod` leaves the manager in order, whatever it is answered.
use kube_pet_node.Prelude.{
  ℕ, List, [], ◌∷◌, Option, none, some, Bool, true, false, ◌≡◌, refl, if◌then◌else◌,
}
use kube_pet_node.Prelude.Text.{Text, str, text_eq}
use kube_pet_node.Prelude.Assoc.{Assoc, lookup, insert}
use kube_pet_node.Pods.Kube.{Pod, Container}
use kube_pet_node.Prelude.Result.{Result, ok, err}
use kube_pet_node.Pods.Coord.{PodCoord, key}
use kube_pet_node.Pods.Storage.{coord_of}
use kube_pet_node.Pods.Manager.{RunningPod, PodManager, set_pod_id, set_container_ids, register_pod}
use kube_pet_node.Pods.Manager.Invariant.{IsKept, Step, Step-IsKept, put-IsKept}
use kube_pet_node.Pods.ImagePull.{Secret}
use kube_pet_node.Pods.Convert.Spec.{convert_container_config}
use kube_pet_node.Prelude.Run.{bind_outcome, Outcome, ◌>>=◌, give, unless_nil}
use kube_pet_node.Pods.Provider.Node.{
  refresh, registration, ignored, Node, Answers, ContainerInspect, M, the_pod, on_manager,
  change_pod, register, register_anyway, is_static, shared,
}
use kube_pet_node.Pods.Provider.Containers.{
  create_containers, create_container, pulls_on_spot, retry_container, pull_for, pull_first,
  after_create, spec_for,
}
use kube_pet_node.Pods.Provider.Create.{
  create_pod, prepare_pod, fill_pod, start_pod, inspect_containers, inspect_one, create_steps,
}

-- A step leaves the manager in order when it finds it so.
abbrev pub Keeps : {A : Type 0} → M A → Type 0
Keeps m = (n : Node) → IsKept n.manager → IsKept (m n).0.manager

bind-IsKept :
    {A B : Type 0} (f : A → M B)
    → ((a : A) → Keeps (f a))
    → (r : Node × Outcome A) → IsKept r.0.manager
    → IsKept (bind_outcome f r).0.manager
unfolding bind_outcome
bind-IsKept f k (n, Outcome.returned a) h = k a n h
bind-IsKept f k (n, Outcome.failed e) h = h
bind-IsKept f k (n, Outcome.panicked) h = h

bind-Keeps :
    {A B : Type 0} (m : M A) (f : A → M B) → Keeps m → ((a : A) → Keeps (f a)) → Keeps (m >>= f)
unfolding ◌>>=◌
bind-Keeps m f k l n h = bind-IsKept f l (m n) (k n h)

unless_nil-Keeps : {A : Type 0} (o : Option A) → Keeps (unless_nil o)
unless_nil-Keeps none n h = h
unless_nil-Keeps (some a) n h = h

if-Keeps : {A : Type 0} (b : Bool) (m k : M A) → Keeps m → Keeps k → Keeps (if b then m else k)
if-Keeps true m k h l = h
if-Keeps false m k h l = l

on_manager-Keeps :
    (f : PodManager → PodManager)
    → ((pm : PodManager) → IsKept pm → IsKept (f pm))
    → Keeps (on_manager f)
on_manager-Keeps f k n h = k n.manager h

refresh-IsKept :
    (pod : Pod) (o : Option RunningPod) (pm : PodManager)
    → IsKept pm
    → lookup (key (coord_of pod)) pm.known_pods ≡ o
    → IsKept (refresh pod o pm)
unfolding refresh
refresh-IsKept pod none pm h e = h
refresh-IsKept pod (some r) pm h e =
    let (same, stored) = h.at (key (coord_of pod)) r e in
    put-IsKept (coord_of pod) (record r { kube = pod }) pm pm.spec_storage h same stored (λ k s. s)

change_pod-Keeps : (f : Pod → Pod) → Keeps (change_pod f)
unfolding change_pod shared
change_pod-Keeps f n h =
    refresh-IsKept (f n.pod) (lookup (key (coord_of (f n.pod))) n.manager.known_pods) n.manager h
      refl

registration-IsKept :
    (n : Node) (r : PodManager × Result PodCoord) → IsKept r.0 → IsKept (registration n r).0.manager
unfolding registration
registration-IsKept n (pm, r) h = h

register-Keeps : (a : Answers) (k : ℕ) → Keeps (register a k)
unfolding register
register-Keeps a k n h =
    registration-IsKept n (register_pod a.json (a.opened k) (a.written k) n.pod n.manager)
      (Step-IsKept a.json n.manager _ (Step.register (a.opened k) (a.written k) n.pod n.manager) h)

ignored-IsKept : (r : Node × Outcome PodCoord) → IsKept r.0.manager → IsKept (ignored r).0.manager
unfolding ignored
ignored-IsKept (n, o) h = h

register_anyway-Keeps : (a : Answers) (k : ℕ) → Keeps (register_anyway a k)
unfolding register_anyway
register_anyway-Keeps a k n h = ignored-IsKept (register a k n) (register-Keeps a k n h)

module _ {Auths : Type 0} (unmarshal : Text → Result Auths) (marshal : Auths → Result Text)
    (a : Answers) where
  pull_for-Keeps :
      (secrets : List Secret) (con : Container) → Keeps (pull_for unmarshal marshal a secrets con)
  unfolding pull_for
  pull_for-Keeps secrets con n h = h

  spec_for-Keeps : (con : Container) (id : Text) → Keeps (spec_for unmarshal marshal a con id)
  unfolding spec_for
  spec_for-Keeps con id =
      bind-Keeps the_pod _ (λ n h. h)
        (λ pod. unless_nil-Keeps (convert_container_config a.total_memory pod con id))

  retry_container-Keeps :
      (secrets : List Secret) (con : Container) (id : Text)
      → Keeps (retry_container unmarshal marshal a secrets con id)
  unfolding retry_container
  retry_container-Keeps secrets con id =
      bind-Keeps _ _ (pull_for-Keeps secrets con) (λ _.
        bind-Keeps _ _ (spec_for-Keeps con id) (λ spec. bind-Keeps _ _ (λ n h. h) (λ _ n h. h)))

  after_create-Keeps :
      (secrets : List Secret) (con : Container) (id : Text) (error : Option Text)
      → Keeps (after_create unmarshal marshal a secrets con id error)
  unfolding after_create
  after_create-Keeps secrets con id none = λ n h. h
  after_create-Keeps secrets con id (some e) =
      if-Keeps (pulls_on_spot e con) _ _ (retry_container-Keeps secrets con id) (λ n h. h)

  create_container-Keeps :
      (secrets : List Secret) (id : Text) (con : Container)
      → Keeps (create_container unmarshal marshal a secrets id con)
  unfolding create_container pull_first
  create_container-Keeps secrets id con =
      bind-Keeps _ _
        (if-Keeps (text_eq con.image_pull_policy (str "Always")) _ _ (pull_for-Keeps secrets con)
          (λ n h. h))
        (λ _. bind-Keeps _ _ (spec_for-Keeps con id) (λ spec.
          bind-Keeps _ _ (λ n h. h)
            (λ _.
              after_create-Keeps secrets con (a.container_create 0 spec).id
                (a.container_create 0 spec).error)))

  create_containers-Keeps :
      (secrets : List Secret) (id : Text) (ids : Assoc Text) (cons : List Container)
      → Keeps (create_containers unmarshal marshal a secrets id ids cons)
  unfolding create_containers
  create_containers-Keeps secrets id ids [] = λ n h. h
  create_containers-Keeps secrets id ids (con ∷ cons) =
      bind-Keeps _ _ (create_container-Keeps secrets id con)
        (λ made. create_containers-Keeps secrets id (insert con.name made ids) cons)

  inspect_one-Keeps :
      (name : Text) (r : Result ContainerInspect) (inspects : Assoc ContainerInspect)
      → Keeps (inspect_one unmarshal marshal a name r inspects)
  unfolding inspect_one
  inspect_one-Keeps name (err e) inspects = λ n h. h
  inspect_one-Keeps name (ok insp) inspects =
      bind-Keeps _ _ (λ n h. h) (λ pod. bind-Keeps _ _ (change_pod-Keeps _) (λ _ n h. h))

  inspect_containers-Keeps :
      (ids : Assoc Text) (inspects : Assoc ContainerInspect)
      → Keeps (inspect_containers unmarshal marshal a ids inspects)
  unfolding inspect_containers
  inspect_containers-Keeps [] inspects = λ n h. h
  inspect_containers-Keeps ((name, id) ∷ ids) inspects =
      bind-Keeps _ _ (inspect_one-Keeps name (a.container_inspect id) inspects)
        (inspect_containers-Keeps ids)

  prepare_pod-Keeps : Keeps (prepare_pod unmarshal marshal a)
  unfolding prepare_pod
  prepare_pod-Keeps =
      bind-Keeps _ _ (λ n h. h)
        (λ _.
          bind-Keeps _ _ (λ n h. h)
            (λ _. bind-Keeps _ _ (register-Keeps a 0) (λ coord.
              bind-Keeps _ _ (λ n h. h)
                (λ pod.
                  bind-Keeps _ _ (λ n h. h)
                    (λ _.
                      bind-Keeps _ _ (λ n h. h)
                        (λ _.
                          bind-Keeps _ _ (λ n h. h)
                            (λ id.
                              bind-Keeps _ _
                                (on_manager-Keeps (set_pod_id coord id)
                                  (λ pm. Step-IsKept a.json pm _ (Step.set_id coord id pm)))
                                (λ _. bind-Keeps _ _ (λ n h. h) (λ infra n h. h)))))))))

  fill_pod-Keeps :
      (coord : PodCoord) (id infra : Text) → Keeps (fill_pod unmarshal marshal a coord id infra)
  unfolding fill_pod
  fill_pod-Keeps coord id infra =
      bind-Keeps _ _ (λ n h. h)
        (λ pod.
          bind-Keeps _ _ (λ n h. h)
            (λ secrets.
              bind-Keeps _ _ (create_containers-Keeps secrets id _ pod.spec.containers) (λ ids.
                bind-Keeps _ _
                  (on_manager-Keeps (set_container_ids coord ids)
                    (λ pm. Step-IsKept a.json pm _ (Step.set_containers coord ids pm)))
                  (λ _. bind-Keeps _ _ (change_pod-Keeps _) (λ _.
                    bind-Keeps _ _ (change_pod-Keeps _) (λ _.
                      bind-Keeps _ _ (λ n h. h)
                        (λ _. bind-Keeps _ _ (register_anyway-Keeps a 1) (λ _ n h. h))))))))

  start_pod-Keeps : (id : Text) (ids : Assoc Text) → Keeps (start_pod unmarshal marshal a id ids)
  unfolding start_pod
  start_pod-Keeps id ids =
      bind-Keeps _ _ (λ n h. h)
        (λ _.
          bind-Keeps _ _ (λ n h. h)
            (λ _. bind-Keeps _ _ (change_pod-Keeps _) (λ _.
              bind-Keeps _ _ (λ n h. h)
                (λ _. bind-Keeps _ _ (register_anyway-Keeps a 2) (λ _.
                  bind-Keeps _ _ (inspect_containers-Keeps ids []) (λ inspects.
                    bind-Keeps _ _ (change_pod-Keeps _) (λ _.
                      bind-Keeps _ _ (change_pod-Keeps _)
                        (λ _. bind-Keeps _ _ (λ n h. h) (λ _. register_anyway-Keeps a 3)))))))))

  -- Whatever podman, the volumes, the API server and the file system answer, and wherever `CreatePod`
  -- ends, every known pod stands under its key and the spec storage has a file of its name afterwards,
  -- if that was so before.
  pub create_pod-IsKept :
      (n : Node) → IsKept n.manager → IsKept (create_pod unmarshal marshal a n).0.manager
  unfolding create_pod create_steps
  create_pod-IsKept n =
      if-Keeps (is_static n.pod) (give tt) _ (λ n h. h)
        (bind-Keeps _ _ prepare_pod-Keeps (λ (coord, id, infra).
          bind-Keeps _ _ (fill_pod-Keeps coord id infra) (start_pod-Keeps id)))
        n
