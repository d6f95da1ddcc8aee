-- ===== src/Store.antt =====
-- retiboard/db/database.py: the tables of one board and the statements on them, and
-- retiboard/db/models.py, whose records they hold. SQLite is not modelled: a table is the list of its
-- rows in the order of their insertion, each statement is a function on it, and a constraint that it
-- would raise is an error value.
pub mod Models
pub mod Lifecycle
pub mod Threads
pub mod Transfer
