-- ===== src/Upgrade/Release/Build.antt =====
-- controllers/autoupgrade/configmap.go: what the package manager of the system has to do with a build.
use kube_pet_node.Prelude.{
  List, [], ◌∷◌, ◌++◌, Option, none, some, true, false, Bool-cases, Option-cases, inl, inr, ◌≡◌,
  refl, some-injective, sym, subst,
}
use kube_pet_node.Prelude.Text.{Text, text_eq, text_eq_refl}
use kube_pet_node.Upgrade.Packages.{System, SystemType, system_type}
use kube_pet_node.Upgrade.Release.{
  TargetPlatform, TargetRelease, url_for, is_ours, url_from, get_our_build_url, Install,
  upgrade_command, install_with, install_from, actually_install_this_release_now,
}

url_for-none :
    (base_url : Text) (platform : TargetPlatform) (kind : Option SystemType) (rest : Option Text)
    → url_for base_url platform kind rest ≡ none
    → (rest ≡ none → kind ≡ none)
    → kind ≡ none
unfolding url_for
url_for-none base_url platform none rest e h = refl
url_for-none base_url platform (some SystemType.deb) rest e h =
    elim (Bool-cases (text_eq platform.deb_url [])) [
      | inl without ↦ h (rw without at e)
      | inr found ↦ let no : some (base_url ++ platform.deb_url) ≡ none = rw found at e in cc
    ]
url_for-none base_url platform (some SystemType.rpm) rest e h =
    elim (Bool-cases (text_eq platform.rpm_url [])) [
      | inl without ↦ h (rw without at e)
      | inr found ↦ let no : some (base_url ++ platform.rpm_url) ≡ none = rw found at e in cc
    ]

url_from-none :
    (s : System) (base_url : Text) (platforms : List TargetPlatform)
    → url_from s base_url platforms ≡ none
    → system_type s ≡ none
unfolding url_from
url_from-none s base_url [] e = cc
url_from-none s base_url (platform ∷ platforms) e = elim (Bool-cases (is_ours s platform)) [
  | inl ours ↦
      url_for-none base_url platform (system_type s) (url_from s base_url platforms) (rw ours at e)
        (url_from-none s base_url platforms)
  | inr other ↦ url_from-none s base_url platforms (rw other at e)
]

-- Only without one package manager does the search for a build panic.
pub get_our_build_url-none :
    (s : System) (tr : TargetRelease) → get_our_build_url s tr ≡ none → system_type s ≡ none
unfolding get_our_build_url
get_our_build_url-none s tr e = url_from-none s tr.base_url tr.platforms e

url_from-some :
    (s : System) (base_url url : Text) (platforms : List TargetPlatform)
    → url_from s base_url platforms ≡ some url
    → text_eq url [] ≡ false
    → system_type s ≡ none
    → ⊥
unfolding url_from url_for
url_from-some s base_url url [] e full lost =
    let nil : [] ≡ url = some-injective e in
    let no : text_eq [] [] ≡ false = subst (λ u. text_eq u [] ≡ false) (sym nil) full in
    let yes' : text_eq [] [] ≡ true = text_eq_refl [] in cc
url_from-some s base_url url (platform ∷ platforms) e full lost =
    elim (Bool-cases (is_ours s platform)) [
      | inl ours ↦ let no : none ≡ some url = rw (ours, lost) at e in cc
      | inr other ↦ url_from-some s base_url url platforms (rw other at e) full lost
    ]

-- A build is one for the package manager of the system.
pub get_our_build_url-some :
    (s : System) (tr : TargetRelease) (url : Text)
    → get_our_build_url s tr ≡ some url
    → text_eq url [] ≡ false
    → (kind : SystemType) × (system_type s ≡ some kind)
unfolding get_our_build_url
get_our_build_url-some s tr url e full = elim (Option-cases (system_type s)) [
  | inl lost ↦ elim (url_from-some s tr.base_url url tr.platforms e full lost) [ ]
  | inr (kind, found) ↦ (kind, found)
]

-- A build is installed by the upgrade command.
pub install-runs :
    (s : System) (tr : TargetRelease) (kind : SystemType) (url : Text)
    → system_type s ≡ some kind
    → get_our_build_url s tr ≡ some url
    → text_eq url [] ≡ false
    → actually_install_this_release_now s tr ≡ Install.runs (upgrade_command tr kind url)
unfolding actually_install_this_release_now install_with install_from
install-runs s tr kind url typed built full = rw (built, full, typed) refl
