-- ===== src/Identity/Address.antt =====
-- controllers/nodeidentity/external-ip.go, and the part of provider.go that keeps the external address.
pub mod Updates
use kube_pet_node.Prelude.{List, [], ◌∷◌, ◌++◌, Bool, true, false, ◌&&◌, ◌||◌, if◌then◌else◌}
use kube_pet_node.Prelude.Text.{Text, str, text_eq}
use kube_pet_node.Prelude.Split.{contains}
use kube_pet_node.Prelude.Result.{Result, ok, err}

pub data AddressType : Type 0 where
  host_name : AddressType
  internal_dns : AddressType
  internal_ip : AddressType
  external_ip : AddressType

pub record NodeAddress : Type 0 where
  pub address_type : AddressType
  pub address : Text

-- The addresses that the loop of `WatchInternetAddress` sends for what it is answered, in order.
unfoldable pub watch_internet_address : Text → List (Result Text) → List Text
watch_internet_address known_addr [] = []
watch_internet_address known_addr (err e ∷ answers) = watch_internet_address known_addr answers
watch_internet_address known_addr (ok addr ∷ answers) =
    let same = watch_internet_address known_addr answers in
    let changed = watch_internet_address addr answers in
    if text_eq addr known_addr then same else addr ∷ changed

abbrev is_external : AddressType → Bool
is_external AddressType.external_ip = true
is_external _ = false

-- An external address with a dot.
unfoldable pub is_external_v4 : NodeAddress → Bool
is_external_v4 a = is_external a.address_type && contains (str ".") a.address

-- The loop over the addresses: whether one matched, and what they are afterwards.
unfoldable pub put_external : Text → List NodeAddress → Bool × List NodeAddress
put_external ip [] = (false, [])
put_external ip (a ∷ addresses) =
    let (matched, rest) = put_external ip addresses in
    if is_external_v4 a then (true, record a { address = ip } ∷ rest) else (matched, a ∷ rest)

abbrev pub external : Text → NodeAddress
external ip = record { address_type = AddressType.external_ip; address = ip }

append_external : Text → Bool × List NodeAddress → List NodeAddress
append_external ip (true, addresses) = addresses
append_external ip (false, addresses) = addresses ++ (external ip ∷ [])

-- What a new address of the internet does to the addresses of the node.
unfoldable pub on_external_ip : Text → List NodeAddress → List NodeAddress
unfolding put_external append_external
on_external_ip ip addresses = append_external ip (put_external ip addresses)

unfoldable pub on_external_ips : List Text → List NodeAddress → List NodeAddress
on_external_ips [] addresses = addresses
on_external_ips (ip ∷ ips) addresses = on_external_ips ips (on_external_ip ip addresses)
