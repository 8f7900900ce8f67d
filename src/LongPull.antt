-- ===== src/LongPull.antt =====
-- Reading the stream of the agent: mtconnect_ros_bridge/scripts/src/long_pull.py.
pub mod Defs
pub mod Cuts
pub mod Text
pub mod Scanner
pub mod Pull
pub mod Heads
pub mod Written
pub mod Parts
pub mod Frames
pub mod Ends
pub mod Session
pub mod Chunks
pub mod Deliveries
