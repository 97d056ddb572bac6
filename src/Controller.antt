-- ===== src/Controller.antt =====
-- pkg/controllers: the controller of CloudShell resources.
pub mod Paths
pub mod Hosts
pub mod Labels
pub mod Defaults
pub mod RouteLists
pub mod Routes
pub mod Nodes
pub mod Services
pub mod Startup
pub mod Sync
pub mod Events
pub mod Settings
pub mod Running
