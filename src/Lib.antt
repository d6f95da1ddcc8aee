-- ===== src/Lib.antt =====
-- RetiBoard's Python backend: the parts that decide what is kept, sent and requested. RetiBoard is a
-- board whose nodes exchange encrypted posts over Reticulum (RNS) and LXMF. A blob that is too large
-- for one message is split into chunks, which a node fetches from several peers; a node learns of
-- threads by HAVE packets, asks for posts by delta requests, and queues messages for peers that it
-- cannot reach yet.
--
-- Parts, and how they interact:
-- - Chunks: retiboard/chunks/chunker.py, models.py, validator.py and reassembly.py. A sender splits a
--   blob and describes it by a manifest; a receiver checks each chunk against the manifest, writes it
--   into a temporary file, and moves the file to its place when it is complete.
-- - Swarm: retiboard/chunks/swarm.py, which chunk of one blob is requested from which peer.
--   Swarm/State.antt has `SwarmFetcher`, Swarm/Marks.antt the events, Swarm/Select.antt
--   `_select_chunk_for_peer`, Swarm/Plan.antt `plan_requests`.
-- - Scheduler: retiboard/sync/payload_scheduler.py, `PayloadFetchScheduler`: which of all the sessions
--   may send one more request.
-- - Queue: retiboard/sync/message_queue.py. Queue/Peer.antt has `PeerQueue`, Queue/Manager.antt
--   `MessageQueueManager`.
-- - Peers: retiboard/sync/peers.py. Peers/Info.antt has `PeerInfo`, Peers/Tracker.antt the calls of
--   `PeerTracker` that change its tables, Peers/Select.antt those that choose peers.
-- - Store: tables and statements of retiboard/db/database.py, with the records of retiboard/db/models.py
--   in Store/Models.antt. Store/Lifecycle.antt has `insert_post` and how long a thread lives,
--   Store/Threads.antt the statements that mark, count and delete whole threads, Store/Transfer.antt
--   the tables of chunked transfers.
-- - Storage: retiboard/storage/payloads.py, the files of a board.
-- - Pruning: retiboard/pruning/pruner.py. Pruning/Board.antt has `prune_board` and `BoardState`, all that
--   a node keeps of a board; Pruning/Quota.antt has `enforce_global_quota`, over all boards, and
--   Pruning/Cycle.antt `prune_all_boards`, which runs both.
-- - Purge: retiboard/moderation/purge.py, which deletes posts and threads by hand and sets a rule that
--   keeps them out; Purge/Bans.antt has bans of an identity and their log.
-- - Receiver: `handle_incoming_metadata` of retiboard/sync/receiver.py, which decides by Moderation and
--   Pow whether a post from another node goes into Store.
-- - Offers: how retiboard/sync/payload_fetch.py tells which chunks a node has, and what it makes of
--   manifests and offers; Swarm takes the ranges.
-- - Moderation: retiboard/moderation/policy.py and the table `content_control` of
--   retiboard/db/database.py. The gossip asks it which posts may leave the node.
-- - Gossip: `compare_have_to_local` of retiboard/sync/have.py, `build_delta_response` and
--   `process_delta_response` of retiboard/sync/delta.py; the last offers each post to the Receiver.
-- - Limiter: retiboard/sync/rate_limiter.py, `SyncRateLimiter`: slots for syncs, pauses after failures.
-- - Batcher: retiboard/db/batcher.py, `ChunkStateBatcher`.
-- - Pow: `verify_pow` and `solve_pow` of retiboard/crypto/pow.py.
-- - Base: names that all share; lists, texts, dictionaries, sets and sorting as Python has them.
-- - Tests: runs on small inputs.
--
-- An object is a record, a method that changes it is a function from the old record to the new one
-- with what the method returns, and a method that raises returns `Result`. Each method that holds a
-- lock is one step; sequences of steps are the relations `Reach` of Swarm, Scheduler and Peers. A
-- private method loses its leading underscore. Times are whole microseconds, where the code has
-- floating-point seconds, and a method reads the clock once; a difference of times stops at 0. SHA-256,
-- random numbers, new identifiers, the size of a JSON record and the choice of a time limit are
-- arguments. SQLite is the list of the rows of a table.
--
-- Loops on fuel: the split of a blob has one more unit than the blob has bytes, since each round takes
-- at least one byte; the reading of a file for its hash has one more than the file has bytes; the loop
-- of `plan_requests` for a peer has the places that a peer may have, since each round takes one.
--
-- The quota takes the bytes that the files have on disk and the test for pinned threads as arguments;
-- nine tenths of the limit is computed on whole numbers. A statement of SQLite is one step, rows come in
-- the order in which they were inserted where the statement does not order them, and a sort keeps that
-- order among equals. A write of a payload file is one step.
--
-- Not modelled: opening and migrating the database, the catalogue query, the conversion of rows, packets,
-- announces and ranges from and to JSON; the files of `PeerTracker`; the sync engine; what the receiver
-- does after it has stored a post; the sessions of payload_fetch.py, which are input and output around
-- the parts named; the directories of the boards, the timer of the pruning and its exceptions; the HTTP
-- API, and the frontend. Log lines are left out, as is the OverflowError of the penalties of swarm.py, whose
-- numbers become too large for a floating-point number after 1024 failures of one peer for one blob.
pub mod Base
pub mod Chunks
pub mod Swarm
pub mod Queue
pub mod Scheduler
pub mod Peers
pub mod Store
pub mod Moderation
pub mod Storage
pub mod Pruning
pub mod Purge
pub mod Receiver
pub mod Offers
pub mod Gossip
pub mod Limiter
pub mod Batcher
pub mod Pow
pub mod Tests
