-- ===== src/Queue.antt =====
-- retiboard/sync/message_queue.py: messages that wait for a peer, in two tiers for each peer
-- (Queue/Peer.antt), and the queues of all peers under one memory ceiling (Queue/Manager.antt). The
-- clock is read once in each operation.
pub mod Message
pub mod Peer
pub mod Manager
