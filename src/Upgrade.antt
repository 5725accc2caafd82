-- ===== src/Upgrade.antt =====
-- controllers/autoupgrade: the node upgrades its own package when the cluster asks for a newer release.
pub mod Release
pub mod Packages
pub mod Units
pub mod Controller
mod Examples
