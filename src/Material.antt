-- ===== src/Material.antt =====
-- The action servers that stand in for the robot: material_load_server.py and
-- material_unload_server.py of mtconnect_ros_bridge/scripts.
pub mod Load
pub mod Unload
pub mod Cycles
