-- ===== src/Chunks.antt =====
-- node/putChunksHandle.go: a file uploaded in numbered chunks. `Save` is the state of one upload and
-- what a chunk does to it, `Combine` the assembly of the file, `Expiry` the limit on open uploads.
pub mod Save
pub mod Combine
pub mod Accept
pub mod Expiry
