-- ===== src/Volumes.antt =====
-- controllers/volumes and pkg/fsinject: the podman volumes that a pod's containers mount.
pub mod Archive
pub mod Runtime
pub mod Links
pub mod Secret
pub mod Projected
pub mod Controller
mod Examples
