-- ===== src/Restore.antt =====
-- node/getRestore.go and node/postRestore.go: which files of a user can be restored, and the orders
-- that restore them.
pub mod List
pub mod Request
