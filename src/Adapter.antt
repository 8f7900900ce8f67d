-- ===== src/Adapter.antt =====
-- The adapter that serves the data items to its clients:
-- mtconnect_ros_bridge/scripts/src/mtconnect_adapter.py.
-- The calls of its methods are taken one after another; the lock, the threads of the TCP server and
-- the printed messages are left out. `sent` records what the clients have been sent.
pub mod Defs
pub mod Gather
pub mod Clients
pub mod Connections
