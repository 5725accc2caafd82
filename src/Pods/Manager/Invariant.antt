-- ===== src/Pods/Manager/Invariant.antt =====
-- controllers/pods/manager.go: every pod that the manager knows stands under its key, with a file of
-- its name in the spec storage.
use kube_pet_node.Prelude.{◌++◌, Option, none, some, inl, inr, ◌≡◌, ◌≢◌, refl, sym, ap, subst, ◌∙◌}
use kube_pet_node.Prelude.Text.{Text, str}
use kube_pet_node.Prelude.Assoc.{Assoc, lookup, insert, lookup-insert_cases, lookup-delete_cases}
use kube_pet_node.Prelude.Split.{trim_suffix, trim_suffix-append}
use kube_pet_node.Pods.Kube.{Pod}
use kube_pet_node.Prelude.Result.{Result, ok, err}
use kube_pet_node.Pods.Coord.{PodCoord, key, file_name}
use kube_pet_node.Pods.Coord.Keys.{file_name-eq}
use kube_pet_node.Pods.Storage.{Json, PodSpecStorage, Answer, WriteAnswer, store_pod}
use kube_pet_node.Pods.Storage.Keeps.{HasFile, store_pod-keeps, store_pod-ok, remove_pod-keeps}
use kube_pet_node.Pods.Manager.{
  RunningPod, PodManager, set_pod_id, set_container_ids, register_pod, unregister_pod, set_known_id,
  set_known_containers, register_stored, registered,
}

abbrev pub IsStored : Text → PodSpecStorage → Type 0
IsStored k pss = lookup (k ++ str ".json") pss.files ≢ none

pub record IsKept (pm : PodManager) : Type 0 where
  pub at :
      (k : Text) (r : RunningPod)
      → lookup k pm.known_pods ≡ some r
      → (key r.coord ≡ k) × IsStored k pm.spec_storage

-- One operation of the manager, whatever the system answers to it.
pub data Step (json : Json) : PodManager → PodManager → Type 0 where
  set_id : (coord : PodCoord) (id : Text) (pm : PodManager) → Step json pm (set_pod_id coord id pm)
  set_containers :
      (coord : PodCoord) (ids : Assoc Text) (pm : PodManager)
      → Step json pm (set_container_ids coord ids pm)
  register :
      (opened : Answer) (written : WriteAnswer) (pod : Pod) (pm : PodManager)
      → Step json pm (register_pod json opened written pod pm).0
  unregister :
      (removed : Answer) (coord : PodCoord) (pm : PodManager)
      → Step json pm (unregister_pod removed coord pm).0

pub data Steps (json : Json) : PodManager → PodManager → Type 0 where
  stop : (pm : PodManager) → Steps json pm pm
  more : {a b c : PodManager} → Step json a b → Steps json b c → Steps json a c

pub suffix-injective : (a b : Text) → a ++ str ".json" ≡ b ++ str ".json" → a ≡ b
suffix-injective a b e =
    let same : some a ≡ some b =
      sym (trim_suffix-append a (str ".json"))
      ∙ ap (λ t. trim_suffix t (str ".json")) e
      ∙ trim_suffix-append b (str ".json") in
    cc

-- Adding an entry under its own key keeps the invariant, when its spec is stored.
pub put-IsKept :
    (coord : PodCoord) (r : RunningPod) (pm : PodManager) (pss : PodSpecStorage)
    → IsKept pm
    → key r.coord ≡ key coord
    → IsStored (key coord) pss
    → ((k : Text) → IsStored k pm.spec_storage → IsStored k pss)
    → IsKept (record { spec_storage = pss; known_pods = insert (key coord) r pm.known_pods })
put-IsKept coord r pm pss h same stored keeps = record {
  at = λ k s e. elim (lookup-insert_cases (key coord) k r s pm.known_pods e) [
    | inl (here, one) ↦ (
      ap (λ (t : RunningPod). key t.coord) (sym one) ∙ same ∙ here,
      subst (λ j. IsStored j pss) here stored,
    )
    | inr old ↦ let (l, m) = h.at k s old in (l, keeps k m)
  ];
}

set_pod_id-IsKept :
    (coord : PodCoord) (id : Text) (o : Option RunningPod) (pm : PodManager)
    → IsKept pm
    → lookup (key coord) pm.known_pods ≡ o
    → IsKept (set_known_id coord id o pm)
unfolding set_known_id
set_pod_id-IsKept coord id none pm h e = h
set_pod_id-IsKept coord id (some r) pm h e =
    put-IsKept coord (record r { coord = coord; pod_id = id }) pm pm.spec_storage h refl
      (h.at (key coord) r e).1 (λ k s. s)

set_container_ids-IsKept :
    (coord : PodCoord) (ids : Assoc Text) (o : Option RunningPod) (pm : PodManager)
    → IsKept pm
    → lookup (key coord) pm.known_pods ≡ o
    → IsKept (set_known_containers coord ids o pm)
unfolding set_known_containers
set_container_ids-IsKept coord ids none pm h e = h
set_container_ids-IsKept coord ids (some r) pm h e =
    put-IsKept coord (record r { coord = coord; container_ids = ids }) pm pm.spec_storage h refl
      (h.at (key coord) r e).1 (λ k s. s)

registered-coord :
    (pod : Pod) (coord : PodCoord) (o : Option RunningPod) → (registered pod coord o).coord ≡ coord
unfolding registered
registered-coord pod coord none = refl
registered-coord pod coord (some r) = refl

moved :
    (pm : PodManager) (pss : PodSpecStorage)
    → IsKept pm
    → ((k : Text) → IsStored k pm.spec_storage → IsStored k pss)
    → IsKept (record pm { spec_storage = pss })
moved pm pss h keeps = record { at = λ k r e. let (l, m) = h.at k r e in (l, keeps k m) }

register_stored-IsKept :
    (pod : Pod) (pm : PodManager) (pss : PodSpecStorage) (result : Result PodCoord)
    → IsKept pm
    → ((k : Text) → IsStored k pm.spec_storage → IsStored k pss)
    → ((coord : PodCoord) → result ≡ ok coord → IsStored (key coord) pss)
    → IsKept (register_stored pod pm (pss, result)).0
unfolding register_stored
register_stored-IsKept pod pm pss (err e) h keeps has = moved pm pss h keeps
register_stored-IsKept pod pm pss (ok coord) h keeps has =
    put-IsKept coord (registered pod coord (lookup (key coord) pm.known_pods)) pm pss h
      (ap key (registered-coord pod coord (lookup (key coord) pm.known_pods))) (has coord refl)
      keeps

unregister-IsKept :
    (answer : Answer) (coord : PodCoord) (pm : PodManager)
    → IsKept pm
    → IsKept (unregister_pod answer coord pm).0
unfolding unregister_pod
unregister-IsKept answer coord pm h = record {
  at = λ k r e.
      let (apart, old) = lookup-delete_cases (key coord) k r pm.known_pods e in
      let (l, m) = h.at k r old in
      let ne : file_name coord ≢ k ++ str ".json" =
        λ q. apart (suffix-injective (key coord) k (sym (file_name-eq coord) ∙ q)) in
      (l, remove_pod-keeps answer coord (k ++ str ".json") pm.spec_storage ne m);
}

pub Step-IsKept : (json : Json) (a b : PodManager) → Step json a b → IsKept a → IsKept b
unfolding set_pod_id set_container_ids register_pod
Step-IsKept json _ _ (Step.set_id coord id pm) h =
    set_pod_id-IsKept coord id (lookup (key coord) pm.known_pods) pm h refl
Step-IsKept json _ _ (Step.set_containers coord ids pm) h =
    set_container_ids-IsKept coord ids (lookup (key coord) pm.known_pods) pm h refl
Step-IsKept json _ _ (Step.register opened written pod pm) h =
    register_stored-IsKept pod pm (store_pod json opened written pod pm.spec_storage).0
      (store_pod json opened written pod pm.spec_storage).1 h
      (λ k s. store_pod-keeps json opened written pod (k ++ str ".json") pm.spec_storage s)
      (λ coord e.
        subst (λ n. HasFile n (store_pod json opened written pod pm.spec_storage).0)
          (file_name-eq coord) (store_pod-ok json opened written pod coord pm.spec_storage e).1)
Step-IsKept json _ _ (Step.unregister answer coord pm) h = unregister-IsKept answer coord pm h

-- After any operations of the manager, whatever the system answered to them, a pod that is known has
-- its coordinates' key, and a file of the store has that key's name, if that was so before.
pub Steps-IsKept : (json : Json) (a b : PodManager) → Steps json a b → IsKept a → IsKept b
Steps-IsKept json _ _ (Steps.stop a) h = h
Steps-IsKept json _ _ (Steps.more s ss) h = Steps-IsKept json _ _ ss (Step-IsKept json _ _ s h)
