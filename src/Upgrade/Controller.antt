-- ===== src/Upgrade/Controller.antt =====
-- controllers/autoupgrade/controller.go: when the node upgrades itself. A version is a value of
-- go-semver, whose reader and order are parameters.
pub mod Runs
use kube_pet_node.Prelude.{
  List, [], ◌∷◌, Option, none, some, Bool, true, false, ◌≡◌, ◌&&◌, not, if◌then◌else◌,
}
use kube_pet_node.Prelude.Text.{Text, str, text_eq}
use kube_pet_node.Prelude.Assoc.{Assoc, lookup}
use kube_pet_node.Prelude.Result.{Result, ok, err}
use kube_pet_node.Prelude.Run.{Outcome, outcome_of}
use kube_pet_node.Upgrade.Packages.{System, get_installed_version}
use kube_pet_node.Upgrade.Units.{is_unit_running}
use kube_pet_node.Upgrade.Release.{
  TargetRelease, Install, IniFile, parse_target_release, has_build_for_us,
  actually_install_this_release_now,
}

pub record Semver (V : Type 0) : Type 0 where
  pub new_version : Text → Result V
  pub less_than : V → V → Bool

-- An upgrader that is capable has the version of the installed package.
pub data AutoUpgrade (V : Type 0) : Type 0 where
  incapable : AutoUpgrade V
  capable : V → AutoUpgrade V

-- The members of corev1.ConfigMap that are read.
pub record ConfigMap : Type 0 where
  pub namespace : Text
  pub name : Text
  pub entries : Assoc Text

-- The variables of the loop in `Run`: whether `timerC` is set, and `targetRelease`.
pub record Loop : Type 0 where
  pub timer : Bool
  pub target : Option TargetRelease

-- The loop waits for an event, has returned after its one attempt, or panicked.
pub data Phase : Type 0 where
  waiting : Loop → Phase
  ended : Install → Phase
  crashed : Phase

pub data Event : Type 0 where
  received : Option TargetRelease → Event
  fired : Event

read_release : (Text → Result IniFile) → Option Text → Option TargetRelease
read_release load none = none
read_release load (some release_str) = elim (parse_target_release load release_str) [
  | err e ↦ none
  | ok release ↦ some release
]

abbrev is_ours : ConfigMap → Bool
is_ours res = text_eq res.namespace (str "kube-system") && text_eq res.name (str "kube-pet-node")

-- What is sent to the loop for a map of the cluster; none is sent for another map.
unfoldable pub enqueue_config_map :
    (Text → Result IniFile) → ConfigMap → Option (Option TargetRelease)
unfolding read_release
enqueue_config_map load res =
    if is_ours res
    then some (read_release load (lookup (str "TargetRelease") res.entries))
    else none

-- An event of the informer.
pub data Notice : Type 0 where
  added : ConfigMap → Notice
  updated : ConfigMap → Notice
  deleted : ConfigMap → Notice

unfoldable pub on_notice : (Text → Result IniFile) → Notice → Option (Option TargetRelease)
unfolding enqueue_config_map
on_notice load (Notice.added res) = enqueue_config_map load res
on_notice load (Notice.updated res) = enqueue_config_map load res
on_notice load (Notice.deleted res) = if is_ours res then some none else none

abbrev idle : TargetRelease → Phase
idle tr = Phase.waiting (record { timer = false; target = some tr })

-- Nothing is installed yet: the timer is set.
scheduled : TargetRelease → Option Bool → Phase
scheduled tr none = Phase.crashed
scheduled tr (some false) = idle tr
scheduled tr (some true) = Phase.waiting (record { timer = true; target = some tr })

module _ {V : Type 0} (semver : Semver V) where
  with_running : V → Result Bool → Outcome (AutoUpgrade V)
  with_running version (err e) = Outcome.failed e
  with_running version (ok false) = Outcome.returned AutoUpgrade.incapable
  with_running version (ok true) = Outcome.returned (AutoUpgrade.capable version)

  with_version : Result (Assoc Text) → Result V → Outcome (AutoUpgrade V)
  unfolding with_running
  with_version shown (err e) = Outcome.failed e
  with_version shown (ok version) = with_running version (is_unit_running shown)

  with_installed : Result (Assoc Text) → Outcome Text → Outcome (AutoUpgrade V)
  unfolding with_version
  with_installed shown Outcome.panicked = Outcome.panicked
  with_installed shown (Outcome.failed e) = Outcome.returned AutoUpgrade.incapable
  with_installed shown (Outcome.returned installed) =
      with_version shown (semver.new_version installed)

  unfoldable pub new_auto_upgrade : System → Result (Assoc Text) → Outcome (AutoUpgrade V)
  unfolding with_installed
  new_auto_upgrade s shown = with_installed shown (get_installed_version s (str "kube-pet-node"))

  module _ (s : System) (self_version : V) where
    compared : TargetRelease → Result V → Phase
    unfolding scheduled
    compared tr (err e) = idle tr
    compared tr (ok target_version) =
        if semver.less_than self_version target_version
        then scheduled tr (has_build_for_us s tr)
        else idle tr

    -- Whatever timer there was is cancelled.
    unfoldable pub receive : Option TargetRelease → Phase
    unfolding compared
    receive none = Phase.waiting (record { timer = false; target = none })
    receive (some tr) =
        if tr.auto_upgrade then compared tr (semver.new_version tr.version) else idle tr

    -- `targetRelease.Version` is read first, which panics on nil.
    unfoldable pub fire : Option TargetRelease → Phase
    fire none = Phase.crashed
    fire (some tr) = Phase.ended (actually_install_this_release_now s tr)

    -- A round of the loop. A nil channel never gives an event; two that are ready come in any order.
    pub data Round : Phase → Event → Phase → Type 0 where
      on_release :
          (l : Loop) (release : Option TargetRelease)
          → Round (Phase.waiting l) (Event.received release) (receive release)
      on_timer : (l : Loop) → l.timer ≡ true → Round (Phase.waiting l) Event.fired (fire l.target)

    -- The events so far, the last one first.
    pub data Run : List Event → Phase → Type 0 where
      begin : Run [] (Phase.waiting (record { timer = false; target = none }))
      next :
          {events : List Event} {p q : Phase} {event : Event}
          → Run events p
          → Round p event q
          → Run (event ∷ events) q
