-- ===== src/Pods/Convert.antt =====
-- controllers/pods/converter.go: from Kubernetes pods and containers to podman's.
pub mod Cpu
pub mod Oom
pub mod Network
pub mod Security
pub mod Mounts
pub mod Spec
