-- ===== src/Wireguard.antt =====
-- pkg/wireguard: the configuration of a wg-quick interface, and the node's key in it.
pub mod Keys
pub mod Config
pub mod Material
mod Examples
