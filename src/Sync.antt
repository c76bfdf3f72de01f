-- ===== src/Sync.antt =====
-- node/syncBlock.go: the blocks of the chain are read one after the other, and the files that users
-- upload and delete are entered in the user's lists, which `getRestoreHandle` reads.
pub mod Lists
pub mod Block
