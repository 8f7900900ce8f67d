-- ===== src/Turtle.antt =====
-- The bridge to the turtle simulator: bridge/bridge.py and bridge/bridge_adapter.py.
pub mod Defs
pub mod Poses
pub mod Moves
