-- ===== src/Tracker.antt =====
-- node/tracker.go: which files are tracked at once, what one tracking thread does with a file, and how
-- the fragments of a file are sent to the storage nodes.
pub mod Threads
pub mod Storage
pub mod Follow
