-- ===== src/Identity.antt =====
-- controllers/nodeidentity: the node's object in the cluster, with its status and addresses.
pub mod Address
pub mod System
pub mod Provider
pub mod Node
mod Examples
