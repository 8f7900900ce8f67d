-- ===== src/Server.antt =====
-- The node that passes the robot's requests on to the machine tool:
-- mtconnect_ros_bridge/scripts/bridge_server.py.
pub mod Defs
pub mod Phases
pub mod Runs
pub mod Requests
pub mod Order
pub mod Draining
pub mod Startup
pub mod Entries
pub mod Started
pub mod Reaching
