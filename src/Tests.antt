-- ===== src/Tests.antt =====
-- Examples: definitions and theorems at concrete inputs.
mod Data
mod Nodes
mod Bridges
mod Cells
mod Streams
mod Clients
mod Pulls
mod Starts
mod Publishers
mod Subscribers
mod Turtles
