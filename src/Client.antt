-- ===== src/Client.antt =====
-- The node that runs robot actions on the machine tool's requests:
-- mtconnect_ros_bridge/scripts/bridge_client.py.
pub mod Defs
pub mod Handshake
pub mod Lost
pub mod Startup
pub mod Started
