-- ===== src/Upload.antt =====
-- The two upload handlers, and what they share once the file is whole: node/putHandle.go and
-- node/putChunksHandle.go.
pub mod Dedup
pub mod Process
pub mod Form
pub mod Put
pub mod PutChunks
