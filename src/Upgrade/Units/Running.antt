-- ===== src/Upgrade/Units/Running.antt =====
-- controllers/autoupgrade/exec-systemctl.go: which answers of systemctl say that a unit runs.
use kube_pet_node.Prelude.{
  [], ◌∷◌, ◌++◌, All, Option, none, some, Bool, true, false, Bool-cases, inl, inr, if◌then◌else◌,
  ◌≡◌, ◌≢◌, ◌↔◌, refl, sym, ap, subst, ◌∙◌, some-injective,
}
use kube_pet_node.Prelude.Text.{Text, str, text_eq, text_eq_iff, text_eq_refl}
use kube_pet_node.Prelude.Assoc.{
  Assoc, IsDistinct, lookup, insert, keys, lookup-insert, lookup-absent,
}
use kube_pet_node.Prelude.Split.{trim_suffix, trim_suffix-append, trim_suffix_sound}
use kube_pet_node.Prelude.Result.{ok}
use kube_pet_node.Upgrade.Units.{
  text_at, add_state, states_from, get_unit_states, states_running, is_unit_running,
}

abbrev or_else : Option Text → Option Text → Option Text
or_else none o = o
or_else (some v) o = some v

add_state-other :
    (key k value : Text) (states : Assoc Text) (o : Option Text)
    → trim_suffix key (str "State") ≡ o
    → key ≢ k ++ str "State"
    → lookup k (add_state o value states) ≡ lookup k states
unfolding add_state
add_state-other key k value states none cut ne = refl
add_state-other key k value states (some j) cut ne = elim (Bool-cases (text_eq j k)) [
  | inl same ↦ absurd (
      ne (
        trim_suffix_sound key (str "State") j cut
        ∙ ap (λ t. t ++ str "State") ((text_eq_iff j k).0 same)))
  | inr other ↦ lookup-insert j k value states ∙ rw other refl
]

lookup-states_from :
    (k : Text) (keys_hash states : Assoc Text)
    → IsDistinct (keys keys_hash)
    → lookup k (states_from states keys_hash)
      ≡ or_else (lookup (k ++ str "State") keys_hash) (lookup k states)
unfolding states_from lookup keys
lookup-states_from k [] states h = refl
lookup-states_from k ((key, value) ∷ rest) states (ne, h) =
    elim (Bool-cases (text_eq key (k ++ str "State"))) [
      | inl same ↦
          let named : key ≡ k ++ str "State" = (text_eq_iff key (k ++ str "State")).0 same in
          let cut : trim_suffix key (str "State") ≡ some k =
            ap (λ t. trim_suffix t (str "State")) named ∙ trim_suffix-append k (str "State") in
          let gone : lookup (k ++ str "State") rest ≡ none =
            lookup-absent (k ++ str "State") rest
              (subst (λ t. All (λ j. t ≢ j) (keys rest)) named ne) in
          let put : lookup k (insert k value states) ≡ some value =
            lookup-insert k k value states ∙ rw (text_eq_refl k) refl in
          rw same (
            lookup-states_from k rest (add_state (trim_suffix key (str "State")) value states) h
            ∙ rw (gone, cut) (unfold add_state in put))
      | inr other ↦
          let apart : key ≢ k ++ str "State" = λ e.
            let own : text_eq key (k ++ str "State") ≡ true =
              (text_eq_iff key (k ++ str "State")).1 e in
            cc in
          rw other (
            lookup-states_from k rest (add_state (trim_suffix key (str "State")) value states) h
            ∙ ap (or_else (lookup (k ++ str "State") rest))
                (add_state-other key k value states (trim_suffix key (str "State")) refl apart))
    ]

or_else-none : (o : Option Text) → or_else o none ≡ o
or_else-none none = refl
or_else-none (some v) = refl

text_at_iff : (o : Option Text) (v : Text) → v ≢ [] → (text_eq (text_at o) v ≡ true) ↔ (o ≡ some v)
unfolding text_at
text_at_iff none v full = (λ e. absurd (full (sym ((text_eq_iff [] v).0 e))), λ e. cc)
text_at_iff (some w) v full =
    (λ e. ap some ((text_eq_iff w v).0 e), λ e. (text_eq_iff w v).1 (some-injective e))

state-at :
    (k : Text) (keys_hash : Assoc Text)
    → IsDistinct (keys keys_hash)
    → lookup k (states_from [] keys_hash) ≡ lookup (k ++ str "State") keys_hash
unfolding lookup
state-at k keys_hash h =
    lookup-states_from k keys_hash [] h ∙ or_else-none (lookup (k ++ str "State") keys_hash)

both-ok : (a b : Bool) → ((if a then ok b else ok false) ≡ ok true) ↔ ((a ≡ true) × (b ≡ true))
both-ok true b = (λ e. (refl, cc), λ (h, e). ap ok e)
both-ok false b = (λ e. cc, λ (h, e). cc)

loaded-full : str "loaded" ≢ []
unfolding str
loaded-full e = cc

running-full : str "running" ≢ []
unfolding str
running-full e = cc

-- When systemctl's output can be loaded, with each key once, the unit is said to run exactly when its
-- LoadState is "loaded" and its SubState is "running".
pub is_unit_running_iff :
    (keys_hash : Assoc Text)
    → IsDistinct (keys keys_hash)
    → (is_unit_running (ok keys_hash) ≡ ok true) ↔ (
        (lookup (str "Load" ++ str "State") keys_hash ≡ some (str "loaded"))
        × (lookup (str "Sub" ++ str "State") keys_hash ≡ some (str "running")))
unfolding is_unit_running get_unit_states states_running
is_unit_running_iff keys_hash h =
    let load =
      text_at_iff (lookup (str "Load" ++ str "State") keys_hash) (str "loaded") loaded-full in
    let sub =
      text_at_iff (lookup (str "Sub" ++ str "State") keys_hash) (str "running") running-full in
    rw (state-at (str "Load") keys_hash h, state-at (str "Sub") keys_hash h)
      (
        λ e. let (l, r) = (both-ok _ _).0 e in (load.0 l, sub.0 r),
        λ (l, r). (both-ok _ _).1 (load.1 l, sub.1 r),
      )
