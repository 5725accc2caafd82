-- ===== src/Firewall.antt =====
-- controllers/firewall: the nftables rules that give the cluster's services their addresses.
pub mod Platform
pub mod Expr
pub mod Nft
pub mod Rule
pub mod Writer
pub mod Cluster
pub mod Config
pub mod Ruleset
pub mod Refinement
pub mod Controller
pub mod Bytes
mod Examples
