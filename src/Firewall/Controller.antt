-- ===== src/Firewall/Controller.antt =====
-- controllers/firewall/controller.go: the configuration is built, hashed with FNV-1a and sent to the
-- kernel when the hash differs from that of the last configuration that was sent. The debouncer, the
-- informers and the netlink socket are outside the repository: the informers' lists and the outcome
-- of `Flush` are arguments.
pub mod Sync
use kube_pet_node.Prelude.{
  ℕ, ◌+◌, ◌*◌, ◌/◌, ◌%◌, ◌^◌, List, [], ◌∷◌, ◌++◌, Option, none, some, Bool, true, false, not,
  if◌then◌else◌,
}
use Prim.Native.Nat.{bit_xor}
use kube_pet_node.Prelude.Text.{Text, str, text_eq}
use kube_pet_node.Firewall.Platform.{Platform}
use kube_pet_node.Firewall.Nft.{NftCall}
use kube_pet_node.Firewall.Writer.{NftWriter, new_nft_writer}
use kube_pet_node.Firewall.Cluster.{Service, Endpoints}
use kube_pet_node.Firewall.Config.Chains.{Node}
use kube_pet_node.Firewall.Config.{build_config}

-- fnv.New32a: one byte, and a sequence of bytes.
unfoldable pub fnv_byte : ℕ → ℕ → ℕ
fnv_byte h c = bit_xor h c * 16777619 % 2 ^ 32

unfoldable pub fnv_write : ℕ → List ℕ → ℕ
unfolding fnv_byte
fnv_write h [] = h
fnv_write h (c ∷ cs) = fnv_write (fnv_byte h c) cs

abbrev pub fnv_offset : ℕ
fnv_offset = 2166136261

-- `Sum(nil)`: four bytes, the highest first.
unfoldable pub fnv_sum : ℕ → List ℕ
fnv_sum h = h / 16777216 % 256 ∷ h / 65536 % 256 ∷ h / 256 % 256 ∷ h % 256 ∷ []

-- The text that was written and its hash so far.
pub record HashingBuilder : Type 0 where
  pub builder : Text
  pub hasher : ℕ

abbrev pub new_hashing_builder : HashingBuilder
new_hashing_builder = record { builder = []; hasher = fnv_offset }

unfoldable pub hashing_write : Text → HashingBuilder → HashingBuilder
unfolding fnv_write
hashing_write t hb = record { builder = hb.builder ++ t; hasher = fnv_write hb.hasher t }

-- The hash of a configuration; the writer's text is what `BuildConfig` wrote, in one piece.
unfoldable pub config_hash : NftWriter → List ℕ
unfolding hashing_write fnv_sum
config_hash nft = fnv_sum (hashing_write nft.text new_hashing_builder).hasher

-- `LatestConfigHash` is nil, here no bytes, before the first configuration.
pub record FirewallController : Type 0 where
  pub node : Node
  pub latest_config_hash : List ℕ

unfoldable pub new_firewall_controller : Node → FirewallController
new_firewall_controller node = record { node = node; latest_config_hash = [] }

-- What `Flush` returns: nil, or an error with its text.
pub data FlushOutcome : Type 0 where
  flushed : FlushOutcome
  failed : Text → FlushOutcome

unfoldable pub is_enobufs : Text → Bool
is_enobufs e = text_eq e (str "Receive: netlink receive: recvmsg: no buffer space available")

-- The controller after a flush that had the outcome.
unfoldable pub after_flush : FlushOutcome → List ℕ → FirewallController → FirewallController
after_flush flushed hash fc = record fc { latest_config_hash = hash }
after_flush (failed e) hash fc =
    if is_enobufs e then record fc { latest_config_hash = hash } else fc

-- `Sync` with a built configuration: the controller, and the calls that were flushed, if any.
unfoldable pub sync_with :
    NftWriter → FlushOutcome → FirewallController → FirewallController × Option (List NftCall)
unfolding after_flush
sync_with nft outcome fc =
    if not (text_eq fc.latest_config_hash (config_hash nft))
    then (after_flush outcome (config_hash nft) fc, some nft.conn)
    else (fc, none)

module _ (p : Platform) where
  abbrev pub sync_built :
      Option (NftWriter × Bool)
      → FlushOutcome
      → FirewallController
      → Option (FirewallController × Option (List NftCall))
  sync_built none outcome fc = none
  sync_built (some (nft, _)) outcome fc = some (sync_with nft outcome fc)

  -- `Sync` ignores the error of `BuildConfig`; no result stands for a panic.
  unfoldable pub sync :
      (List Text → List Text)
      → Option (List Endpoints)
      → Option (List Service)
      → FlushOutcome
      → FirewallController
      → Option (FirewallController × Option (List NftCall))
  unfolding sync_with
  sync order endpoints services outcome fc =
      sync_built (build_config p order fc.node endpoints services new_nft_writer) outcome fc

-- What the update handler reads of an object that is an Endpoints; none for another type.
pub record EndpointsMeta : Type 0 where
  pub namespace : Text
  pub is_leader_lock : Bool

-- Whether an update of the object triggers a sync: election locks of kube-system do not.
unfoldable pub update_triggers : Option EndpointsMeta → Bool
update_triggers none = true
update_triggers (some m) =
    if text_eq m.namespace (str "kube-system") then not m.is_leader_lock else true
