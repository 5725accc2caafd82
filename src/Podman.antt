-- ===== src/Podman.antt =====
-- pkg/podman: the client of podman's HTTP interface.
pub mod Demux
pub mod Client
mod Examples
