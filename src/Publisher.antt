-- ===== src/Publisher.antt =====
-- The node that publishes the machine tool's events as ROS messages:
-- mtconnect_ros_bridge/scripts/bridge_publisher.py.
pub mod Defs
pub mod Current
pub mod Queue
pub mod Startup
pub mod Checks
pub mod Values
pub mod Silent
pub mod Started
