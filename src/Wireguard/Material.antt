-- ===== src/Wireguard/Material.antt =====
-- pkg/wireguard/keypair.go: the node's key, which is kept in the configuration of its interface.
pub mod Stable
use kube_pet_node.Prelude.{ℕ, [], Option, none, some, take, if◌then◌else◌}
use kube_pet_node.Prelude.Text.{Text, str, text_eq}
use kube_pet_node.Prelude.Int.{ℤ}
use kube_pet_node.Prelude.Result.{Result, ok, err}
use kube_pet_node.Pods.Storage.{Answer, done, denied, WriteAnswer, wrote, broke}
use kube_pet_node.Wireguard.Config.{WgQuickConfig, Library, stringify, parse_wg_quick_config}
use kube_pet_node.Wireguard.Keys.{
  KeyLibrary, read_private_key_from_base64, new_private_key, public_key,
}

-- What the system answers to one call.
pub record Answers : Type 0 where
  pub read : Answer
  pub random : Result Text
  pub open_for_write : Answer
  pub write : WriteAnswer

-- The file of the interface, if it is there.
abbrev pub File : Type 0
File = Option Text

unfoldable pub blank_config : WgQuickConfig
blank_config = record {
  comment = [];
  private_key = [];
  addresses = [];
  listen_port = ℤ.negsuc 0;
  firewall_mark = ℤ.negsuc 0;
  peers = [];
}

-- `ioutil.WriteFile` empties the file first.
write_file : Answer → WriteAnswer → Text → File → File × Result (Unit {0})
write_file (denied e) written text file = (file, err e)
write_file done wrote text file = (some text, ok tt)
write_file done (broke n e) text file = (some (take n text), err e)

module _ (lib : Library) (keys : KeyLibrary) where
  written : Text → File × Result (Unit {0}) → File × Result Text
  written sk (file, err e) = (file, err e)
  written sk (file, ok _) = (file, ok (public_key keys sk))

  with_new_key : Answers → WgQuickConfig → File → Result Text → File × Result Text
  unfolding write_file written
  with_new_key a config file (err e) = (file, err e)
  with_new_key a config file (ok sk) = written sk (
      write_file a.open_for_write a.write
        (stringify (record config { private_key = keys.encode_base64 sk })) file)

  with_old_key : File → Result Text → File × Result Text
  with_old_key file (err e) = (file, err e)
  with_old_key file (ok sk) = (file, ok (public_key keys sk))

  with_config : Answers → File → Result WgQuickConfig → File × Result Text
  unfolding with_new_key with_old_key
  with_config a file (err e) = (file, err e)
  with_config a file (ok config) =
      if text_eq config.private_key []
      then with_new_key a config file (new_private_key keys a.random)
      else with_old_key file (read_private_key_from_base64 keys config.private_key)

  -- A file that is not there gives a blank configuration.
  unfoldable pub config_of : Answer → File → Result WgQuickConfig
  unfolding blank_config
  config_of (denied e) file = err e
  config_of done none = ok blank_config
  config_of done (some text) = parse_wg_quick_config lib text

  -- The public key of the interface.
  unfoldable pub ensure_key_material : Answers → File → File × Result Text
  unfolding config_of with_config
  ensure_key_material a file = with_config a file (config_of a.read file)
