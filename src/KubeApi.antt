-- ===== src/KubeApi.antt =====
-- controllers/kubeapi: the key and certificate of the node's own API server.
pub mod Keys
pub mod Request
pub mod Certificate
mod Examples
