-- ===== src/Library.antt =====
-- The functions that the bridge nodes share: mtconnect_ros_bridge/scripts/bridge_library.py.
pub mod Tags
pub mod Events
pub mod Goals
pub mod Xml
pub mod Connectivity
pub mod Actions
pub mod Effects
pub mod Nodes
pub mod Packages
pub mod Startup
pub mod Initial
pub mod Connects
pub mod Reaching
