-- ===== src/Upgrade/Packages.antt =====
-- controllers/autoupgrade/exec-pkgmgr.go: which package manager the system has, and which version of
-- a package it says is installed. What the programs print is an argument.
pub mod Dpkg
use kube_pet_node.Prelude.{
  List, [], ◌∷◌, ◌++◌, Option, none, some, Bool, true, false, ◌||◌, if◌then◌else◌,
}
use kube_pet_node.Prelude.Text.{Text, str, text_eq}
use kube_pet_node.Prelude.Split.{split}
use kube_pet_node.Prelude.Result.{Result, ok, err}
use kube_pet_node.Prelude.Run.{Outcome, outcome_of}

pub data SystemType : Type 0 where
  deb : SystemType
  rpm : SystemType

abbrev pub type_name : SystemType → Text
type_name SystemType.deb = str "Deb"
type_name SystemType.rpm = str "Rpm"

-- What the machine and its programs answer. The patterns are those of the program's regexp values.
pub record System : Type 0 where
  pub goos : Text
  pub goarch : Text
  -- `which` finds dpkg-query and dnf
  pub has_dpkg : Bool
  pub has_dnf : Bool
  pub dpkg_query : Text → Result Text
  pub dnf_info : Text → Result Text
  pub dnf_ver_pattern : Text → Option Text
  pub dnf_rel_pattern : Text → Option Text
  pub systemctl_show : Text → Result Text

type_of : Bool → Bool → Option SystemType
type_of true true = none
type_of true false = some SystemType.deb
type_of false true = some SystemType.rpm
type_of false false = none

-- `SystemType()`; none is its panic, with both package managers or neither.
unfoldable pub system_type : System → Option SystemType
unfolding type_of
system_type s = type_of s.has_dpkg s.has_dnf

is_installed : Text → Bool
is_installed state = text_eq state (str "installed") || text_eq state (str "half-configured")

dpkg_fields : List Text → Result Text
unfolding is_installed
dpkg_fields (version ∷ want ∷ flag ∷ state ∷ []) =
    if text_eq want (str "install")
    then (if text_eq flag (str "ok")
        then (if is_installed state
            then ok version
            else err (
                str "dpkg-query reported our package as '"
                ++ state
                ++ str "' which wasn't 'installed' or 'half-configured'"))
        else err (str "dpkg-query reported our package as '" ++ flag ++ str "' which wasn't 'ok'"))
    else err (str "dpkg-query reported our package as '" ++ want ++ str "' which wasn't 'install'")
dpkg_fields _ = err (str "dpkg-query gave another number of fields than 4")

unfoldable pub dpkg_version : Text → Result Text
unfolding dpkg_fields
dpkg_version out = dpkg_fields (split b' ' out)

dnf_matches : Option Text → Option Text → Result Text
dnf_matches none release = err (str "dnf version pattern didn't match")
dnf_matches (some version) none = err (str "dnf release pattern didn't match")
dnf_matches (some version) (some release) = ok (version ++ str "-" ++ release)

unfoldable pub dnf_version : System → Text → Result Text
unfolding dnf_matches
dnf_version s out = dnf_matches (s.dnf_ver_pattern out) (s.dnf_rel_pattern out)

abbrev pub with_output : (Text → Result Text) → Result Text → Result Text
with_output read (err e) = err e
with_output read (ok out) = read out

installed_by : System → Text → Option SystemType → Outcome Text
unfolding dpkg_version dnf_version
installed_by s pkg_name none = Outcome.panicked
installed_by s pkg_name (some SystemType.deb) =
    outcome_of (with_output dpkg_version (s.dpkg_query pkg_name))
installed_by s pkg_name (some SystemType.rpm) =
    outcome_of (with_output (dnf_version s) (s.dnf_info pkg_name))

unfoldable pub get_installed_version : System → Text → Outcome Text
unfolding installed_by system_type
get_installed_version s pkg_name = installed_by s pkg_name (system_type s)
