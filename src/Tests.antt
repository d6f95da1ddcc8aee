-- ===== src/Tests.antt =====
-- Runs of the definitions on small inputs, and the theorems at them.
mod Blobs
mod Queues
mod Sessions
mod Neighbours
mod Downloads
mod Rules
mod Puzzle
mod Limits
mod Rows
mod Posts
mod Boards
mod Arrivals
