-- ===== src/Upgrade/Packages/Dpkg.antt =====
-- controllers/autoupgrade/exec-pkgmgr.go: which answers of dpkg-query give a version.
use kube_pet_node.Prelude.{
  List, [], ◌∷◌, All, true, ◌⊎◌, inl, inr, ◌≡◌, ◌↔◌, refl, sym, ap, subst, ◌∙◌, arith,
}
use kube_pet_node.Prelude.Text.{Text, str, text_eq, text_eq_iff, text_eq_refl}
use kube_pet_node.Prelude.Split.{
  split, cons_head, Lacks, join, join-split, split-append, split-Lacks,
}
use kube_pet_node.Prelude.Result.{ok, if-ok}
use kube_pet_node.Upgrade.Packages.{is_installed, dpkg_fields, dpkg_version}

-- The fields of a package that is installed, after its version.
abbrev pub installed_as : Text → List Text
installed_as state = str "install" ∷ str "ok" ∷ state ∷ []

abbrev pub IsGoodState : Text → Type 0
IsGoodState state = (state ≡ str "installed") ⊎ (state ≡ str "half-configured")

is_installed_iff : (state : Text) → (is_installed state ≡ true) ↔ IsGoodState state
unfolding is_installed
is_installed_iff state =
    ground (arith, text_eq_iff state (str "installed"), text_eq_iff state (str "half-configured"))

-- Only four fields of this form give a version.
dpkg_fields_sound :
    (fields : List Text) (version : Text)
    → dpkg_fields fields ≡ ok version
    → (state : Text) × IsGoodState state × (fields ≡ version ∷ installed_as state)
unfolding dpkg_fields
dpkg_fields_sound [] version e = cc
dpkg_fields_sound (a ∷ []) version e = cc
dpkg_fields_sound (a ∷ b ∷ []) version e = cc
dpkg_fields_sound (a ∷ b ∷ c ∷ []) version e = cc
dpkg_fields_sound (a ∷ b ∷ c ∷ d ∷ []) version e =
    let (want, e1) = if-ok (text_eq b (str "install")) _ _ version e in
    let (flag, e2) = if-ok (text_eq c (str "ok")) _ _ version e1 in
    let (state, e3) = if-ok (is_installed d) _ _ version e2 in
    let one : a ≡ version = cc in
    let second : b ≡ str "install" = (text_eq_iff b (str "install")).0 want in
    let third : c ≡ str "ok" = (text_eq_iff c (str "ok")).0 flag in
    (d, (is_installed_iff d).0 state, rw (one, second, third) refl)
dpkg_fields_sound (a ∷ b ∷ c ∷ d ∷ f ∷ rest) version e = cc

dpkg_fields_complete :
    (version state : Text)
    → IsGoodState state
    → dpkg_fields (version ∷ installed_as state) ≡ ok version
unfolding dpkg_fields
dpkg_fields_complete version state h =
    rw (text_eq_refl (str "install"), text_eq_refl (str "ok"), (is_installed_iff state).1 h) refl

split-installed_as :
    (state : Text)
    → IsGoodState state
    → split b' ' (join b' ' (installed_as state)) ≡ installed_as state
unfolding split cons_head str
split-installed_as state (inl e) = rw e refl
split-installed_as state (inr e) = rw e refl

-- dpkg-query gives a version exactly when it prints that version, without a space in it, and then that
-- the package is to be installed, is in order, and is installed or half configured.
pub dpkg_version_iff :
    (out version : Text)
    → (dpkg_version out ≡ ok version) ↔ (
        Lacks b' ' version
        × (state : Text) × IsGoodState state
        × (out ≡ join b' ' (version ∷ installed_as state)))
unfolding dpkg_version
dpkg_version_iff out version = (
  λ e.
      let (state, good, fields) = dpkg_fields_sound (split b' ' out) version e in
      let lacks : All (Lacks b' ') (version ∷ installed_as state) =
        subst (All (Lacks b' ')) fields (split-Lacks b' ' out) in
      (lacks.0, state, good, sym (join-split b' ' out) ∙ ap (join b' ') fields),
  λ (lacks, state, good, same). rw same (
      rw
        (
          split-append b' ' version (join b' ' (installed_as state)) lacks,
          split-installed_as state good,
        )
        (dpkg_fields_complete version state good)),
)
