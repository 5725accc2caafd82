-- ===== src/Pods.antt =====
-- controllers/pods: the pods that the node runs.
pub mod Kube
pub mod Coord
pub mod Storage
pub mod Convert
pub mod ImagePull
pub mod Manager
pub mod Startup
pub mod Stats
pub mod Provider
pub mod Samples
mod Examples
