-- ===== src/RobotSim.antt =====
-- The simulated robot: mtconnect_ros_bridge/scripts/robot_sim.py, with the action clients
-- closechuck.py, closedoor.py, opendoor.py and openchuck.py that it calls.
pub mod Defs
pub mod Sequence
pub mod Startup
pub mod Started
