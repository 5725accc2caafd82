-- ===== src/Pods/Provider.antt =====
-- controllers/pods/provider.go. A call runs on the state of `Node`; what podman, the volumes
-- controller, the API server and the file system answer are the fields of `Answers`.
pub mod Node
pub mod Containers
pub mod Create
pub mod Delete
mod Examples
