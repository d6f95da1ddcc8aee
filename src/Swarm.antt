-- ===== src/Swarm.antt =====
-- retiboard/chunks/swarm.py: which chunk of one blob is requested from which peer. Files:
-- Swarm/State.antt (the state and what is read of it), Swarm/Marks.antt (what the events do to it),
-- Swarm/Select.antt (the choice of a chunk), Swarm/Plan.antt (`plan_requests`), and the proofs.
pub mod State
pub mod Marks
pub mod Select
pub mod Plan
pub mod Choice
pub mod Bounds
pub mod Counted
pub mod Freed
pub mod Ended
pub mod Served
pub mod Loop
pub mod Tracking
pub mod Stored
pub mod Kept
pub mod Fresh
pub mod Start
pub mod Reach
