-- ===== src/Peers.antt =====
-- retiboard/sync/peers.py: the peers that are known, by the hash under which LXMF delivers to them,
-- and an index from boards to peers. Files: Peers/Info.antt (`PeerInfo`), Peers/Boards.antt (the
-- index), Peers/Tracker.antt (the calls that change the tables), Peers/Select.antt (the calls that
-- choose peers), and the proofs.
pub mod Info
pub mod Boards
pub mod Tracker
pub mod Keyed
pub mod Listed
pub mod Sound
pub mod Load
pub mod Reach
pub mod Paths
pub mod Select
pub mod Fetch
pub mod Ranked
