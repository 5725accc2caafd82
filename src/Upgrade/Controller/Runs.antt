-- ===== src/Upgrade/Controller/Runs.antt =====
-- controllers/autoupgrade/controller.go: which runs of the loop install a release.
use kube_pet_node.Prelude.{
  List, [], ◌∷◌, drop, All, Option, none, some, Bool, true, false, Bool-cases, inl, inr,
  if◌then◌else◌, ◌≡◌, refl, sym, ap, subst,
}
use kube_pet_node.Prelude.Text.{Text, text_eq}
use kube_pet_node.Prelude.Result.{Result, ok, err}
use kube_pet_node.Upgrade.Packages.{System, SystemType, system_type}
use kube_pet_node.Upgrade.Release.{
  TargetRelease, Install, get_our_build_url, is_build, has_build_for_us, upgrade_command,
}
use kube_pet_node.Upgrade.Release.Build.{
  get_our_build_url-none, get_our_build_url-some, install-runs,
}
use kube_pet_node.Upgrade.Controller.{
  Semver, Loop, Phase, Event, idle, scheduled, compared, receive, fire, Round, Run,
}

abbrev pub IsRelease : Event → Type 0
IsRelease (Event.received release) = Unit {0}
IsRelease Event.fired = ⊥

module _ {V : Type 0} (semver : Semver V) (s : System) (self_version : V) where
  -- A release that is enabled and newer than the node, with a package for it.
  pub record IsDue (tr : TargetRelease) : Type 0 where
    pub enabled : tr.auto_upgrade ≡ true
    pub version : V
    pub parsed : semver.new_version tr.version ≡ ok version
    pub newer : semver.less_than self_version version ≡ true
    pub kind : SystemType
    pub typed : system_type s ≡ some kind
    pub url : Text
    pub built : get_our_build_url s tr ≡ some url
    pub full : text_eq url [] ≡ false

  -- What the events so far say of a phase.
  abbrev Fits : List Event → Phase → Type 0
  Fits events (Phase.waiting l) =
      l.timer ≡ true
      → (tr : TargetRelease) × IsDue tr
        × (l.target ≡ some tr)
        × (before : List Event) × (events ≡ Event.received (some tr) ∷ before)
  Fits events (Phase.ended install) =
      (tr : TargetRelease) × (d : IsDue tr) × (install
        ≡ Install.runs (upgrade_command tr d.kind d.url))
      × (before : List Event) × (events ≡ Event.fired ∷ Event.received (some tr) ∷ before)
  Fits events Phase.crashed = system_type s ≡ none

  scheduled-Fits :
      (tr : TargetRelease) (version : V) (before : List Event) (o : Option Text)
      → get_our_build_url s tr ≡ o
      → tr.auto_upgrade ≡ true
      → semver.new_version tr.version ≡ ok version
      → semver.less_than self_version version ≡ true
      → Fits (Event.received (some tr) ∷ before) (scheduled tr (is_build o))
  unfolding scheduled is_build
  scheduled-Fits tr version before none built enabled parsed newer =
      get_our_build_url-none s tr built
  scheduled-Fits tr version before (some url) built enabled parsed newer =
      elim (Bool-cases (text_eq url [])) [
        | inl lost ↦ rw lost (λ on. cc)
        | inr full ↦
            let (kind, typed) = get_our_build_url-some s tr url built full in
            let due : IsDue tr = record {
              enabled = enabled;
              version = version;
              parsed = parsed;
              newer = newer;
              kind = kind;
              typed = typed;
              url = url;
              built = built;
              full = full;
            } in
            rw full (λ on. (tr, due, refl, before, refl))
      ]

  compared-Fits :
      (tr : TargetRelease) (before : List Event) (r : Result V)
      → semver.new_version tr.version ≡ r
      → tr.auto_upgrade ≡ true
      → Fits (Event.received (some tr) ∷ before) (compared semver s self_version tr r)
  unfolding compared has_build_for_us
  compared-Fits tr before (err e) parsed enabled = λ on. cc
  compared-Fits tr before (ok version) parsed enabled =
      elim (Bool-cases (semver.less_than self_version version)) [
        | inl newer ↦
            rw newer
              (scheduled-Fits tr version before (get_our_build_url s tr) refl enabled parsed newer)
        | inr older ↦ rw older (λ on. cc)
      ]

  abbrev Decided : TargetRelease → List Event → Bool → Type 0
  Decided tr before enabled = Fits (Event.received (some tr) ∷ before) (
      if enabled
      then compared semver s self_version tr (semver.new_version tr.version)
      else idle tr)

  receive-Fits :
      (release : Option TargetRelease) (before : List Event)
      → Fits (Event.received release ∷ before) (receive semver s self_version release)
  unfolding receive
  receive-Fits none before = λ on. cc
  receive-Fits (some tr) before = elim (Bool-cases tr.auto_upgrade) [
    | inl enabled ↦
        subst (Decided tr before) (sym enabled)
          (compared-Fits tr before (semver.new_version tr.version) refl enabled)
    | inr disabled ↦ subst (Decided tr before) (sym disabled) (λ on. cc)
  ]

  Round-Fits :
      (events : List Event) (p q : Phase) (event : Event)
      → Fits events p
      → Round semver s self_version p event q
      → Fits (event ∷ events) q
  unfolding fire
  Round-Fits events _ _ _ h (Round.on_release l release) = receive-Fits release events
  Round-Fits events _ _ _ h (Round.on_timer l on) =
      let (tr, due, target, before, last) = h on in
      rw target (
        tr,
        due,
        install-runs s tr due.kind due.url due.typed due.built due.full,
        before,
        ap (λ es. Event.fired ∷ es) last,
      )

  Run-Fits : (events : List Event) (p : Phase) → Run semver s self_version events p → Fits events p
  Run-Fits _ _ Run.begin = λ on. cc
  Run-Fits _ _ (Run.next {events} {p} {q} {event} run round) =
      Round-Fits events p q event (Run-Fits events p run) round

  -- The loop ends only by running the upgrade command, for the release that it received last, and that
  -- release is enabled, newer than the node, and has a package for it: an event in between, whatever it
  -- says, cancels an upgrade.
  pub Run-ended :
      (events : List Event) (install : Install)
      → Run semver s self_version events (Phase.ended install)
      → (tr : TargetRelease) × (d : IsDue tr) × (install
          ≡ Install.runs (upgrade_command tr d.kind d.url))
        × (before : List Event) × (events ≡ Event.fired ∷ Event.received (some tr) ∷ before)
  Run-ended events install run = Run-Fits events (Phase.ended install) run

  receive-due :
      (tr : TargetRelease)
      → IsDue tr
      → receive semver s self_version (some tr)
        ≡ Phase.waiting (record { timer = true; target = some tr })
  unfolding receive compared has_build_for_us is_build scheduled
  receive-due tr d =
      subst
        (λ b.
          (if b then compared semver s self_version tr (semver.new_version tr.version) else idle tr)
          ≡ Phase.waiting (record { timer = true; target = some tr }))
        (sym d.enabled) (rw (d.parsed, d.newer, d.built, d.full) refl)

  -- A loop that still waits, whatever it received before, and now receives a release that is enabled,
  -- newer than the node, and has a package for it, runs the upgrade command when the timer fires before
  -- anything else is received.
  pub Run-installs :
      (events : List Event) (l : Loop) (tr : TargetRelease) (d : IsDue tr)
      → Run semver s self_version events (Phase.waiting l)
      → Run semver s self_version
          (Event.fired ∷ Event.received (some tr) ∷ events)
          (Phase.ended (Install.runs (upgrade_command tr d.kind d.url)))
  unfolding fire
  Run-installs events l tr d run =
      let due : Loop = record { timer = true; target = some tr } in
      let got : Run semver s self_version (Event.received (some tr) ∷ events) (Phase.waiting due) =
        subst (Run semver s self_version _) (receive-due tr d)
          (Run.next run (Round.on_release l (some tr))) in
      subst
        (λ i.
          Run semver s self_version (Event.fired ∷ Event.received (some tr) ∷ events)
            (Phase.ended i))
        (install-runs s tr d.kind d.url d.typed d.built d.full)
        (Run.next got (Round.on_timer due refl))

  -- The loop panics only on a system that has both package managers or neither.
  pub Run-crashed :
      (events : List Event) → Run semver s self_version events Phase.crashed → system_type s ≡ none
  Run-crashed events run = Run-Fits events Phase.crashed run

  -- While the loop waits, the timer has not fired; then it is the last event.
  abbrev HasOneTry : List Event → Phase → Type 0
  HasOneTry events (Phase.waiting l) = All IsRelease events
  HasOneTry events _ = All IsRelease (drop 1 events)

  release-HasOneTry :
      (event : Event) (events : List Event) (q : Phase)
      → IsRelease event
      → All IsRelease events
      → HasOneTry (event ∷ events) q
  release-HasOneTry event events (Phase.waiting l) first h = (first, h)
  release-HasOneTry event events (Phase.ended install) first h = h
  release-HasOneTry event events Phase.crashed first h = h

  fire-HasOneTry :
      (events : List Event) (target : Option TargetRelease)
      → All IsRelease events
      → HasOneTry (Event.fired ∷ events) (fire semver s self_version target)
  unfolding fire
  fire-HasOneTry events none h = h
  fire-HasOneTry events (some tr) h = h

  Round-HasOneTry :
      (events : List Event) (p q : Phase) (event : Event)
      → HasOneTry events p
      → Round semver s self_version p event q
      → HasOneTry (event ∷ events) q
  Round-HasOneTry events _ _ _ h (Round.on_release l release) =
      release-HasOneTry (Event.received release) events (receive semver s self_version release) tt h
  Round-HasOneTry events _ _ _ h (Round.on_timer l on) = fire-HasOneTry events l.target h

  Run-HasOneTry :
      (events : List Event) (p : Phase) → Run semver s self_version events p → HasOneTry events p
  Run-HasOneTry _ _ Run.begin = tt
  Run-HasOneTry _ _ (Run.next {events} {p} {q} {event} run round) =
      Round-HasOneTry events p q event (Run-HasOneTry events p run) round

  tail-IsRelease :
      (events : List Event) (p : Phase) → HasOneTry events p → All IsRelease (drop 1 events)
  tail-IsRelease [] (Phase.waiting l) h = tt
  tail-IsRelease (event ∷ events) (Phase.waiting l) (first, h) = h
  tail-IsRelease events (Phase.ended install) h = h
  tail-IsRelease events Phase.crashed h = h

  -- The timer fires at most once in a run, as its last event: after the one attempt to install a
  -- release, the loop is over.
  pub Run-once :
      (event : Event) (events : List Event) (p : Phase)
      → Run semver s self_version (event ∷ events) p
      → All IsRelease events
  Run-once event events p run =
      tail-IsRelease (event ∷ events) p (Run-HasOneTry (event ∷ events) p run)
