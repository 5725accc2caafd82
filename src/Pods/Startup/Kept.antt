-- ===== src/Pods/Startup/Kept.antt =====
-- controllers/pods/manager.go: the pods that the manager knows after `NewPodManager`.
use kube_pet_node.Prelude.{
  List, [], ◌∷◌, ◌++◌, All, Option, none, some, Bool-cases, inl, inr, ◌≡◌, ◌≢◌, refl, sym, ap,
  subst, ◌∙◌,
}
use kube_pet_node.Prelude.Text.{Text, str}
use kube_pet_node.Prelude.Assoc.{
  IsDistinct, Assoc, lookup, insert, delete, keys, lookup-insert_cases, lookup-delete_cases,
}
use kube_pet_node.Pods.Kube.{Pod}
use kube_pet_node.Prelude.Result.{Result, ok, err}
use kube_pet_node.Pods.Coord.{PodCoord, key, file_name, parse_pod_key}
use kube_pet_node.Pods.Coord.Keys.{parse_pod_key_iff, file_name-eq}
use kube_pet_node.Pods.Storage.{
  Json, PodSpecStorage, Answer, done, denied, read_pod, remove_pod, list_all_pods, list_files,
}
use kube_pet_node.Pods.Storage.Apart.{AreApart, list_files-AreApart}
use kube_pet_node.Pods.Storage.Keeps.{HasFile, read_pod-HasFile, remove_pod-keeps}
use kube_pet_node.Pods.Manager.{RunningPod, PodManager}
use kube_pet_node.Pods.Manager.Invariant.{IsStored, IsKept, suffix-injective}
use kube_pet_node.Pods.Startup.{
  ListPodsReport, add_found, is_ours, found_pods_from, Correlation, correlate_read,
  correlate_removed, unless_failed, correlate_one, correlate, remove_dangling, finish,
  after_correlation, start_with, new_pod_manager,
}

abbrev IsNamed : Assoc ListPodsReport → Type 0
IsNamed found = (k : Text) (r : ListPodsReport) → lookup k found ≡ some r → r.name ≡ k

lookup-empty : {V : Type 0} (k : Text) (v : V) → ¬ (lookup k [] ≡ some v)
unfolding lookup
lookup-empty k v e = cc

insert-IsNamed :
    (k : Text) (r : ListPodsReport) (found : Assoc ListPodsReport)
    → r.name ≡ k
    → IsNamed found
    → IsNamed (insert k r found)
insert-IsNamed k r found own h j s e = elim (lookup-insert_cases k j r s found e) [
  | inl (here, same) ↦ ap (λ (t : ListPodsReport). t.name) (sym same) ∙ own ∙ here
  | inr old ↦ h j s old
]

add_found-IsNamed :
    (o : Option PodCoord) (pod : ListPodsReport) (found : Assoc ListPodsReport)
    → parse_pod_key pod.name ≡ o
    → IsNamed found
    → IsNamed (add_found o pod found)
unfolding add_found
add_found-IsNamed none pod found e h = h
add_found-IsNamed (some coord) pod found e h =
    insert-IsNamed (key coord) pod found (sym ((parse_pod_key_iff pod.name coord).0 e).1) h

found_pods_from-IsNamed :
    (found : Assoc ListPodsReport) (pods : List ListPodsReport)
    → IsNamed found
    → IsNamed (found_pods_from found pods)
unfolding found_pods_from
found_pods_from-IsNamed found [] h = h
found_pods_from-IsNamed found (pod ∷ pods) h =
    elim (Bool-cases (is_ours (lookup (str "heritage") pod.labels))) [
      | inl ours ↦ rw ours (
          found_pods_from-IsNamed (add_found (parse_pod_key pod.name) pod found) pods
            (add_found-IsNamed (parse_pod_key pod.name) pod found refl h))
      | inr other ↦ rw other (found_pods_from-IsNamed found pods h)
    ]

delete-IsNamed :
    (k : Text) (found : Assoc ListPodsReport) → IsNamed found → IsNamed (delete k found)
delete-IsNamed k found h j s e = h j s (lookup-delete_cases k j s found e).1

-- What holds of the loop's variables, before the loop over the coordinates.
record IsGood (coords : List PodCoord) (c : Correlation) : Type 0 where
  named : IsNamed c.found
  at :
      (k : Text) (r : RunningPod)
      → lookup k c.known ≡ some r
      → (key r.coord ≡ k) × IsStored k c.storage × All (λ d. k ≢ key d) coords

module _ (json : Json) (reads removes : PodCoord → Answer) where
  correlate_read-IsGood :
      (answer : Answer) (coord : PodCoord) (coords : List PodCoord) (found_pod : ListPodsReport)
      (c : Correlation) (result : Result Pod)
      → lookup (key coord) c.found ≡ some found_pod
      → read_pod json answer coord c.storage ≡ result
      → All (λ d. key coord ≢ key d) coords
      → IsGood (coord ∷ coords) c
      → (correlate_read json reads removes coord found_pod c result).1 ≡ none
      → IsGood coords (correlate_read json reads removes coord found_pod c result).0
  unfolding correlate_read
  correlate_read-IsGood answer coord coords found_pod c (err e) seen read apart h ended = cc
  correlate_read-IsGood answer coord coords found_pod c (ok pod) seen read apart h ended = record {
    named = delete-IsNamed (key coord) c.found h.named;
    at = λ k r e. elim (lookup-insert_cases found_pod.name k _ r c.known e) [
      | inl (here, same) ↦
          let own : key coord ≡ k = sym (h.named (key coord) found_pod seen) ∙ here in
          (
            ap (λ (t : RunningPod). key t.coord) (sym same) ∙ own,
            subst (λ j. IsStored j c.storage) own
                (subst (λ f. HasFile f c.storage) (file_name-eq coord)
                  (read_pod-HasFile json answer coord pod c.storage read)),
            subst (λ j. All (λ d. j ≢ key d) coords) own apart,
          )
      | inr old ↦ let (l, m, n) = h.at k r old in (l, m, n.1)
    ];
  }

  correlate_removed-IsGood :
      (answer : Answer) (coord : PodCoord) (coords : List PodCoord) (c : Correlation)
      → IsGood (coord ∷ coords) c
      → IsGood coords (correlate_removed json reads removes c (remove_pod answer coord c.storage)).0
  unfolding correlate_removed remove_pod
  correlate_removed-IsGood (denied e) coord coords c h = record {
    named = h.named;
    at = λ k r e'. let (l, m, n) = h.at k r e' in (l, m, n.1);
  }
  correlate_removed-IsGood done coord coords c h = record {
    named = h.named;
    at = λ k r e'.
        let (l, m, n) = h.at k r e' in
        let ne : file_name coord ≢ k ++ str ".json" =
          λ q. n.0 (sym (suffix-injective (key coord) k (sym (file_name-eq coord) ∙ q))) in
        (l, remove_pod-keeps done coord (k ++ str ".json") c.storage ne m, n.1);
  }

  correlate_one-IsGood :
      (coord : PodCoord) (coords : List PodCoord) (o : Option ListPodsReport) (c : Correlation)
      → lookup (key coord) c.found ≡ o
      → All (λ d. key coord ≢ key d) coords
      → IsGood (coord ∷ coords) c
      → (correlate_one json reads removes coord o c).1 ≡ none
      → IsGood coords (correlate_one json reads removes coord o c).0
  unfolding correlate_one
  correlate_one-IsGood coord coords none c seen apart h ended =
      correlate_removed-IsGood (removes coord) coord coords c h
  correlate_one-IsGood coord coords (some found_pod) c seen apart h ended =
      correlate_read-IsGood (reads coord) coord coords found_pod c
        (read_pod json (reads coord) coord c.storage) seen refl apart h ended

  unless_failed-IsGood :
      (rest : Correlation → Correlation × Option Text) (round : Correlation × Option Text)
      → (round.1 ≡ none → (rest round.0).1 ≡ none → IsGood [] (rest round.0).0)
      → (unless_failed json reads removes rest round).1 ≡ none
      → IsGood [] (unless_failed json reads removes rest round).0
  unfolding unless_failed
  unless_failed-IsGood rest (c, some e) h ended = cc
  unless_failed-IsGood rest (c, none) h ended = h refl ended

  correlate-IsGood :
      (coords : List PodCoord) (c : Correlation)
      → AreApart coords
      → IsGood coords c
      → (correlate json reads removes coords c).1 ≡ none
      → IsGood [] (correlate json reads removes coords c).0
  unfolding correlate
  correlate-IsGood [] c apart h ended = h
  correlate-IsGood (coord ∷ coords) c (ne, apart) h ended =
      unless_failed-IsGood (correlate json reads removes coords)
        (correlate_one json reads removes coord (lookup (key coord) c.found) c)
        (λ on.
          correlate-IsGood coords _ apart
            (correlate_one-IsGood coord coords (lookup (key coord) c.found) c refl ne h on))
        ended

  module _ (pod_rm : Text → Result (Unit {0}))
      (order : List (Text × ListPodsReport) → List (Text × ListPodsReport)) where
    finish-IsKept :
        (c : Correlation) (ids : List Text) (failure : Option Text) (pm : PodManager)
        → IsGood [] c
        → (finish json reads removes c (ids, failure)).result ≡ ok pm
        → IsKept pm
    unfolding finish
    finish-IsKept c ids (some e) pm h started = cc
    finish-IsKept c ids none pm h started =
        let one : record { spec_storage = c.storage; known_pods = c.known } ≡ pm = cc in
        subst IsKept one (record { at = λ k r e. let (l, m, n) = h.at k r e in (l, m) })

    after_correlation-IsKept :
        (c : Correlation) (failure : Option Text) (pm : PodManager)
        → (failure ≡ none → IsGood [] c)
        → (after_correlation json reads removes pod_rm order (c, failure)).result ≡ ok pm
        → IsKept pm
    unfolding after_correlation
    after_correlation-IsKept c (some e) pm h started = cc
    after_correlation-IsKept c none pm h started =
        let (ids, failure) = remove_dangling json reads removes pod_rm (order c.found) in
        finish-IsKept c ids failure pm (h refl) started

    start_with-IsKept :
        (pss : PodSpecStorage) (stored : Result (List PodCoord))
        (found : Result (List ListPodsReport)) (pm : PodManager)
        → ((list : List PodCoord) → stored ≡ ok list → AreApart list)
        → (start_with json reads removes pod_rm order pss stored found).result ≡ ok pm
        → IsKept pm
    unfolding start_with
    start_with-IsKept pss (err e) found pm h started = cc
    start_with-IsKept pss (ok stored) (err e) pm h started = cc
    start_with-IsKept pss (ok stored) (ok found) pm h started =
        let first : Correlation = record {
          storage = pss;
          found = found_pods_from [] found;
          known = [];
        } in
        let good : IsGood stored first = record {
          named = found_pods_from-IsNamed [] found (λ k r e. elim (lookup-empty k r e) [ ]);
          at = λ k r e. elim (lookup-empty k r e) [ ];
        } in
        after_correlation-IsKept (correlate json reads removes stored first).0
          (correlate json reads removes stored first).1 pm
          (correlate-IsGood stored first (h stored refl) good) started

    -- Whatever the system and podman answer, when `NewPodManager` gives a manager and no two files of
    -- the store had the same name, each pod that it knows has its coordinates' key, and a file of the
    -- store has that key's name.
    pub new_pod_manager-IsKept :
        (listed : Answer) (found : Result (List ListPodsReport)) (pss : PodSpecStorage)
        (pm : PodManager)
        → IsDistinct (keys pss.files)
        → (new_pod_manager json reads removes pod_rm order listed found pss).result ≡ ok pm
        → IsKept pm
    unfolding new_pod_manager list_all_pods
    new_pod_manager-IsKept (denied e) found pss pm h started =
        start_with-IsKept pss (err e) found pm (λ list no. cc) started
    new_pod_manager-IsKept done found pss pm h started =
        start_with-IsKept pss (ok (list_files (keys pss.files))) found pm
          (λ list e.
            let one : list_files (keys pss.files) ≡ list = cc in
            subst AreApart one (list_files-AreApart (keys pss.files) h))
          started
