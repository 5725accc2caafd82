-- ===== src/Volumes/Secret.antt =====
-- controllers/volumes/vol-secret.go
use kube_pet_node.Prelude.{
  ℕ, List, [], ◌∷◌, ◌++◌, map, flat_map, Option, none, some, Bool, false, if◌then◌else◌,
}
use kube_pet_node.Prelude.Text.{Text, str}
use kube_pet_node.Prelude.Assoc.{Assoc, lookup, keys}
use kube_pet_node.Prelude.Result.{Result, ok, err}
use kube_pet_node.Prelude.Run.{◌>>=◌, ◌>>◌, give, fail, answer}
use kube_pet_node.Pods.Kube.{KeyToPath, SecretVolumeSource}
use kube_pet_node.Volumes.Archive.{Entry, start_archive_extraction, write_entries, finish}
use kube_pet_node.Volumes.Runtime.{SecretData, VolumeCall, Answers, M, call, create_runtime_volume}
use kube_pet_node.Volumes.Links.{path_link, data_path, current_link, default_mode}

abbrev or_mode : Option ℕ → ℕ → ℕ
or_mode none mode = mode
or_mode (some mode) default = mode

abbrev is_true : Option Bool → Bool
is_true none = false
is_true (some b) = b

item_file : Text → ℕ → KeyToPath → Option Text → List Entry
item_file res_version mode item none = []
item_file res_version mode item (some body) =
    Entry.file (data_path res_version item.path) (or_mode item.mode mode) body ∷ []

-- A key that the secret lacks is passed over, also where the secret is not optional.
unfoldable pub item_files : Text → ℕ → Assoc Text → KeyToPath → List Entry
unfolding item_file
item_files res_version mode entries item = item_file res_version mode item (lookup item.key entries)

unfoldable pub key_link : Text → Entry
key_link key = Entry.sym_link key (str "..data/current/" ++ key)

unfoldable pub secret_entries : Answers → ℕ → Option (List KeyToPath) → SecretData → List Entry
unfolding item_files key_link
secret_entries a mode none secret =
    map (λ (kv : Text × Text). Entry.file (data_path secret.resource_version kv.0) mode kv.1)
      (a.file_order secret.entries)
    ++ (current_link secret.resource_version ∷ map key_link (keys (a.link_order secret.entries)))
secret_entries a mode (some items) secret =
    flat_map (item_files secret.resource_version mode secret.entries) items
    ++ (current_link secret.resource_version
        ∷ map (λ (item : KeyToPath). path_link item.path) items)

module _ (a : Answers) where
  -- An archive is written and unpacked into the volume.
  unfoldable pub extract : Text → List Entry → M (Unit {0})
  extract vol_path entries = do
    archive ← answer (start_archive_extraction a.tar vol_path)
    let written = write_entries a.tar entries archive
    call (VolumeCall.extracted vol_path written.entries)
    answer (finish a.tar written)

  -- An optional secret that cannot be had leaves the volume empty.
  fill_secret : Text → SecretVolumeSource → Result SecretData → M (Unit {0})
  unfolding extract secret_entries
  fill_secret vol_path source (err e) = if is_true source.optional then give tt else fail e
  fill_secret vol_path source (ok secret) =
      extract vol_path
        (secret_entries a (or_mode source.default_mode default_mode) source.items secret)

  unfoldable pub create_secret_volume : Text → Text → Text → SecretVolumeSource → M (Unit {0})
  unfolding fill_secret
  create_secret_volume namespace pod_uid vol_name source = do
    vol_path ← create_runtime_volume a pod_uid (str "secret") vol_name
    fill_secret vol_path source (a.get_secret namespace source.secret_name)
