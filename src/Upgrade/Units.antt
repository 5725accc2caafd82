-- ===== src/Upgrade/Units.antt =====
-- controllers/autoupgrade/exec-systemctl.go: whether a systemd unit runs.
pub mod Running
use kube_pet_node.Prelude.{[], ◌∷◌, Option, none, some, Bool, true, false, if◌then◌else◌}
use kube_pet_node.Prelude.Text.{Text, str, text_eq}
use kube_pet_node.Prelude.Assoc.{Assoc, lookup, insert}
use kube_pet_node.Prelude.Split.{trim_suffix}
use kube_pet_node.Prelude.Result.{Result, ok, err}

-- `m[k]` on a missing key is the empty string.
unfoldable pub text_at : Option Text → Text
text_at none = []
text_at (some v) = v

add_state : Option Text → Text → Assoc Text → Assoc Text
add_state none value states = states
add_state (some key) value states = insert key value states

-- The loop over the keys of the section, in any order.
unfoldable pub states_from : Assoc Text → Assoc Text → Assoc Text
unfolding add_state
states_from states [] = states
states_from states ((key, value) ∷ rest) =
    states_from (add_state (trim_suffix key (str "State")) value states) rest

-- The keys of the section DEFAULT of what `systemctl show` printed, when ini.v1 can load it.
unfoldable pub get_unit_states : Result (Assoc Text) → Result (Assoc Text)
unfolding states_from
get_unit_states (err e) = err e
get_unit_states (ok keys_hash) = ok (states_from [] keys_hash)

unfoldable pub states_running : Result (Assoc Text) → Result Bool
unfolding text_at
states_running (err e) = err e
states_running (ok states) =
    if text_eq (text_at (lookup (str "Load") states)) (str "loaded")
    then ok (text_eq (text_at (lookup (str "Sub") states)) (str "running"))
    else ok false

unfoldable pub is_unit_running : Result (Assoc Text) → Result Bool
is_unit_running shown = states_running (get_unit_states shown)
