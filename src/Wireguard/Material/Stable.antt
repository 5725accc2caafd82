-- ===== src/Wireguard/Material/Stable.antt =====
-- pkg/wireguard/keypair.go: the node keeps its key.
use kube_pet_node.Prelude.{[], none, false, ◌⊎◌, ◌≡◌}
use kube_pet_node.Prelude.Text.{Text, text_eq}
use kube_pet_node.Prelude.Result.{ok}
use kube_pet_node.Pods.Storage.{done, wrote}
use kube_pet_node.Wireguard.Config.{WgQuickConfig, Library, stringify}
use kube_pet_node.Wireguard.Keys.{KeyLibrary, clamp, read_private_key_from_base64}
use kube_pet_node.Wireguard.Material.{Answers, File, blank_config, config_of}

-- The system refuses nothing, and gives these random bytes.
abbrev pub Allows : Answers → Text → Type 0
Allows a random =
    (a.read ≡ done) × (a.random ≡ ok random) × (a.open_for_write ≡ done) × (a.write ≡ wrote)

module _ (lib : Library) (keys : KeyLibrary) where
  -- There is no file yet, or one with a key that can be decoded.
  abbrev pub IsReady : File → Type 0
  IsReady file =
      (file ≡ none)
      ⊎ ((config : WgQuickConfig) × (sk : Text) × (config_of lib keys done file ≡ ok config)
          × (text_eq config.private_key [] ≡ false)
          × (read_private_key_from_base64 keys config.private_key ≡ ok sk))

  -- What is written where there is no file.
  abbrev first_text : Text → Text
  first_text random =
      stringify (record blank_config { private_key = keys.encode_base64 (clamp random) })
