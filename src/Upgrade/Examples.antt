-- ===== src/Upgrade/Examples.antt =====
-- The theorems on upgrades, applied to a machine with dpkg and a release with a Debian package. A
-- version is its length here, so that a longer one is newer.
use kube_pet_node.Prelude.{
  ℕ, List, [], ◌∷◌, ◌++◌, All, none, some, true, false, ltb, length, ◌≡◌, refl,
}
use kube_pet_node.Prelude.Text.{Text, str, text_eq}
use kube_pet_node.Prelude.Split.{split, cons_head}
use kube_pet_node.Prelude.Result.{ok, err}
use kube_pet_node.Upgrade.Packages.{System, SystemType, system_type, dpkg_version}
use kube_pet_node.Upgrade.Release.{
  TargetRelease, Install, get_our_build_url, has_build_for_us, upgrade_command,
}
use kube_pet_node.Upgrade.Controller.{Semver, Phase, Event, receive, Round, Run}
use kube_pet_node.Upgrade.Controller.Runs.{
  IsDue, IsRelease, Run-ended, Run-installs, Run-crashed, Run-once,
}

abbrev by_length : Semver ℕ
by_length = record { new_version = λ t. ok (length t); less_than = ltb }

abbrev machine : System
machine = record {
  goos = str "linux";
  goarch = str "amd64";
  has_dpkg = true;
  has_dnf = false;
  dpkg_query = λ name. ok (str "1.0 install ok installed");
  dnf_info = λ name. err (str "no dnf");
  dnf_ver_pattern = λ out. none;
  dnf_rel_pattern = λ out. none;
  systemctl_show = λ unit. ok [];
}

-- A machine with both package managers.
abbrev muddled : System
muddled = record machine { has_dnf = true }

abbrev newer : TargetRelease
newer = record {
  version = str "1.0.1";
  base_url = str "https://example.org/";
  auto_upgrade = true;
  platforms =
      record { os = str "linux"; arch = str "amd64"; deb_url = str "pet.deb"; rpm_url = [] } ∷ [];
}

abbrev url : Text
url = str "https://example.org/" ++ str "pet.deb"

newer-IsDue : IsDue by_length machine 3 newer
unfolding system_type get_our_build_url text_eq str
newer-IsDue = record {
  enabled = refl;
  version = 5;
  parsed = refl;
  newer = refl;
  kind = SystemType.deb;
  typed = refl;
  url = url;
  built = refl;
  full = refl;
}

abbrev before : List Event
before = Event.received none ∷ []

one_release :
    Run by_length machine 3 before (Phase.waiting (record { timer = false; target = none }))
unfolding receive
one_release = Run.next Run.begin (Round.on_release _ none)

abbrev upgrading : List Event
upgrading = Event.fired ∷ Event.received (some newer) ∷ before

abbrev upgrade : Install
upgrade = Install.runs (upgrade_command newer newer-IsDue.kind newer-IsDue.url)

Run-installs_example : Run by_length machine 3 upgrading (Phase.ended upgrade)
Run-installs_example =
    Run-installs by_length machine 3 before (record { timer = false; target = none }) newer
      newer-IsDue one_release

upgraded : Run by_length machine 3 upgrading (Phase.ended upgrade)
upgraded =
    Run-installs by_length machine 3 before (record { timer = false; target = none }) newer
      newer-IsDue one_release

Run-ended_example :
    (tr : TargetRelease) × (d : IsDue by_length machine 3 tr) × (upgrade
      ≡ Install.runs (upgrade_command tr d.kind d.url))
    × (earlier : List Event) × (upgrading ≡ Event.fired ∷ Event.received (some tr) ∷ earlier)
Run-ended_example = Run-ended by_length machine 3 upgrading upgrade upgraded

Run-once_example : All IsRelease (Event.received (some newer) ∷ before)
Run-once_example =
    Run-once by_length machine 3 Event.fired (Event.received (some newer) ∷ before)
      (Phase.ended upgrade) upgraded

muddled_crash : Run by_length muddled 3 (Event.received (some newer) ∷ []) Phase.crashed
unfolding receive has_build_for_us system_type get_our_build_url text_eq str
muddled_crash = Run.next Run.begin (Round.on_release _ (some newer))

Run-crashed_example : system_type muddled ≡ none
Run-crashed_example =
    Run-crashed by_length muddled 3 (Event.received (some newer) ∷ []) muddled_crash

version_of : dpkg_version (str "1.0 install ok installed") ≡ ok (str "1.0")
unfolding dpkg_version split cons_head text_eq str
version_of = refl
