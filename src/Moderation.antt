-- ===== src/Moderation.antt =====
-- retiboard/moderation/policy.py and the table it reads, `content_control` of
-- retiboard/db/database.py. SQLite is not modelled: a table is the list of its rows in the order of
-- their ids, and each statement is a function on it.
pub mod Controls
pub mod Policy
pub mod Effect
pub mod Withheld
