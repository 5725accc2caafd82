-- ===== src/Firewall/Platform.antt =====
-- What the firewall takes from packages outside the repository: the address parser and printer of
-- package net, the protocol numbers of golang.org/x/sys/unix and the chain priorities of
-- github.com/google/nftables. All are parameters of the model.
use kube_pet_node.Prelude.{ℕ, List}
use kube_pet_node.Prelude.Text.{Text}

-- A net.IP by what the firewall reads of it: `To4()` (no bytes for nil) and `String()`.
pub record Ip : Type 0 where
  pub to4 : List ℕ
  pub string : Text

-- A net.IPNet by its IP, its mask and its `String()`.
pub record IpNet : Type 0 where
  pub ip : Ip
  pub mask : List ℕ
  pub string : Text

-- nftables.ChainPriorityFilter and the like, by name.
pub data Priority : Type 0 where
  filter nat_dest mangle nat_source : Priority

pub record Platform : Type 0 where
  -- net.ParseIP
  pub parse_ip : Text → Ip
  pub ipproto_icmp : ℕ
  pub ipproto_tcp : ℕ
  pub ipproto_udp : ℕ
  pub ipproto_sctp : ℕ
  -- nftables.ChainTypeFilter, nftables.ChainTypeNAT
  pub chain_type_filter : Text
  pub chain_type_nat : Text
  -- the decimal text of a chain priority
  pub priority_text : Priority → Text
