-- ===== src/Subscriber.antt =====
-- The node that tells the machine tool of the robot's ROS messages:
-- mtconnect_ros_bridge/scripts/bridge_subscriber.py.
pub mod Defs
pub mod Conversion
pub mod Topics
pub mod Startup
pub mod Serving
pub mod Listening
