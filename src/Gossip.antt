-- ===== src/Gossip.antt =====
-- Tier 2 and tier 3 of the gossip: what is asked for after a HAVE packet (retiboard/sync/have.py), and
-- the batch that answers a request (retiboard/sync/delta.py). The rows come from the database; JSON is
-- not modelled, but for the size of a record, which is a parameter.
pub mod Have
pub mod Delta
pub mod Response
