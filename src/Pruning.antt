-- ===== src/Pruning.antt =====
-- retiboard/pruning/pruner.py: what is deleted when the time of a thread is over, a board has too many
-- threads, or the disk is full. A board is its tables and its files; log lines are left out.
pub mod Board
pub mod Quota
pub mod Cycle
