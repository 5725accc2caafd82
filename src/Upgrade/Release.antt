-- ===== src/Upgrade/Release.antt =====
-- controllers/autoupgrade/configmap.go and exec-upgrade.go: the release that the cluster asks for, the
-- package of it that fits the machine, and the command that installs it.
pub mod Build
use kube_pet_node.Prelude.{
  List, [], ◌∷◌, ◌++◌, Option, none, some, Bool, true, false, not, ◌&&◌, if◌then◌else◌,
}
use kube_pet_node.Prelude.Text.{Text, str, text_eq}
use kube_pet_node.Prelude.Result.{Result, ok, err}
use kube_pet_node.Upgrade.Packages.{System, SystemType, type_name, system_type}

pub record TargetPlatform : Type 0 where
  pub os : Text
  pub arch : Text
  pub deb_url : Text
  pub rpm_url : Text

pub record TargetRelease : Type 0 where
  pub version : Text
  pub base_url : Text
  pub auto_upgrade : Bool
  pub platforms : List TargetPlatform

-- A file that ini.v1 has loaded: what StrictMapTo gives for its section DEFAULT, as a release without
-- platforms, and for each section Platform.
pub record IniFile : Type 0 where
  pub default_section : Result TargetRelease
  pub platform_sections : Result (List (Result TargetPlatform))

map_platforms : List (Result TargetPlatform) → Result (List TargetPlatform)
map_platforms [] = ok []
map_platforms (err e ∷ sections) = err e
map_platforms (ok platform ∷ sections) = elim (map_platforms sections) [
  | err e ↦ err e
  | ok platforms ↦ ok (platform ∷ platforms)
]

with_platforms : TargetRelease → Result (List (Result TargetPlatform)) → Result TargetRelease
unfolding map_platforms
with_platforms release (err e) = err e
with_platforms release (ok sections) = elim (map_platforms sections) [
  | err e ↦ err e
  | ok platforms ↦ ok (record release { platforms = platforms })
]

read_sections : Result IniFile → Result TargetRelease
unfolding with_platforms
read_sections (err e) = err e
read_sections (ok file) = elim file.default_section [
  | err e ↦ err e
  | ok release ↦ with_platforms release file.platform_sections
]

unfoldable pub parse_target_release : (Text → Result IniFile) → Text → Result TargetRelease
unfolding read_sections
parse_target_release load data_text = read_sections (load data_text)

-- A package of this kind, or what the rest of the platforms gives.
url_for : Text → TargetPlatform → Option SystemType → Option Text → Option Text
url_for base_url platform none rest = none
url_for base_url platform (some SystemType.deb) rest =
    if text_eq platform.deb_url [] then rest else some (base_url ++ platform.deb_url)
url_for base_url platform (some SystemType.rpm) rest =
    if text_eq platform.rpm_url [] then rest else some (base_url ++ platform.rpm_url)

abbrev is_ours : System → TargetPlatform → Bool
is_ours s platform = text_eq platform.os s.goos && text_eq platform.arch s.goarch

url_from : System → Text → List TargetPlatform → Option Text
unfolding url_for
url_from s base_url [] = some []
url_from s base_url (platform ∷ platforms) =
    let rest = url_from s base_url platforms in
    if is_ours s platform then url_for base_url platform (system_type s) rest else rest

-- The empty text without a package; none is the panic of `SystemType()`.
unfoldable pub get_our_build_url : System → TargetRelease → Option Text
unfolding url_from
get_our_build_url s tr = url_from s tr.base_url tr.platforms

-- `GetOurBuildUrl() != ""`
unfoldable pub is_build : Option Text → Option Bool
is_build none = none
is_build (some url) = some (not (text_eq url []))

unfoldable pub has_build_for_us : System → TargetRelease → Option Bool
unfolding is_build
has_build_for_us s tr = is_build (get_our_build_url s tr)

-- What a call of `ActuallyInstallThisReleaseNow` does: it runs a command, returns an error, or panics.
pub data Install : Type 0 where
  runs : List Text → Install
  lacks_url : Install
  panics : Install

unfoldable pub upgrade_command : TargetRelease → SystemType → Text → List Text
upgrade_command tr kind url =
    str "sudo"
    ∷ str "/opt/kube-pet-node/bin/node-upgrade.sh"
    ∷ tr.version
    ∷ type_name kind
    ∷ url
    ∷ []

install_from : TargetRelease → Option SystemType → Text → Install
unfolding upgrade_command
install_from tr none url = Install.panics
install_from tr (some kind) url = Install.runs (upgrade_command tr kind url)

install_with : System → TargetRelease → Option Text → Install
unfolding install_from
install_with s tr none = Install.panics
install_with s tr (some url) =
    if text_eq url [] then Install.lacks_url else install_from tr (system_type s) url

unfoldable pub actually_install_this_release_now : System → TargetRelease → Install
unfolding install_with
actually_install_this_release_now s tr = install_with s tr (get_our_build_url s tr)
