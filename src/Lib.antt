-- ===== src/Lib.antt =====
-- DeOSS, the object storage gateway of the CESS network: its core logic as total functions, and what
-- holds of it. Paths are those of the repository.
--
-- The program is an HTTP gateway. Users upload files, in one request or in chunks; the gateway checks
-- who they are and what they may store, cuts a file into segments and fragments, orders its storage on
-- the chain, and leaves a track file. A tracker follows every track file until the chain has the file,
-- and sends the fragments to storage nodes. A synchroniser reads the blocks of the chain and keeps lists
-- of each user's files, from which a user can restore them. A download takes a file from the cache, from
-- another gateway, or puts it together from the fragments of the storage nodes.
--
-- The files, in the order in which they build on one another:
--   Base        Go's slices, maps and fixed-width integers, and tests; lemmas on them.
--   TrackQueue  inter/trackfile.go: the files that are being tracked, at most ten.
--   Http        what a gin handler does: it changes the state, and answers, panics or goes on.
--   Chain       the CESS chain and its SDK: a state and operations, of which nothing is assumed.
--   Access      node/common.go: AccessControl, VerifyAccountSignature, VerifyEthSign;
--               checkUserParamsAndGetPubkey. The cryptography is a record of functions.
--   Admission   checkSapce, checkAuth, checkDeOSSStatus and the tests of memory and disk.
--   Chunks      node/putChunksHandle.go: the record of an upload (Save), what a chunk does to it
--               (Accept), the assembly (Combine), and the limit on open uploads (Expiry).
--   Track       RecordInfo of node/tracker.go; WriteTrackFile and its like, of node/node.go.
--   Server      what the handlers change: chain, cache, directories, track files, chunkReq.
--   Upload      putHandle (Put), putChunksHandle (PutChunks), deduplication (Dedup) and fileProcess
--               (Process); Form has what both handlers read of a request.
--   Tracker     node/tracker.go: the threads (Threads), one pass of trackFile (Follow), and
--               storageData (Storage).
--   Restore     getRestoreHandle of node/getRestore.go (List), and postRestoreHandle of
--               node/postRestore.go (Request).
--   Sync        node/syncBlock.go: one event (Lists), one block and the start (Block).
--   Delete      delHandle of node/delHandle.go.
--   Config      pkg/confile/confile.go (Parse), and buildConfigFile and buildAuthenticationConfig of
--               cmd/cmd/run.go (Build).
--   Peers       node/record_peer.go: the peers that were discovered, and their backup.
--   Download    getHandle and fetchFiles of node/getHandle.go (Get, its download without the cache in
--               Serve, Fetch), downloadFileHandle of node/download_file.go (Handle), openFileHandle of node/open_file.go (Open), and
--               getMetadataHandle of node/get_metadata.go (Metadata).
--   ContentTypes  node/contentType.go.
--   Schedule    the storage nodes and the blacklist of node/node.go, and what the timers of
--               node/taskMgt.go and node/sdkMgt.go do to them.
--   Start       cmd_run_func of cmd/cmd/run.go.
--   Tests       runs at concrete inputs.
--
-- A handler that changes the server is an Action: from a state to an outcome and a state. Those of
-- Download may write more than one answer, so that they return how they end and all that they write.
-- An int64 or int is the number below 2 ^ 64 with its bits, and its comparisons and sums are those of
-- Base.Word. A call of the operating system that can fail has its result in a record of faults, which
-- a theorem leaves open unless it says otherwise. The exceptions are removals whose errors the code
-- drops: those of DeleteTrackFile, of temporary files, of the assembly of chunks, of fileProcess and
-- of the downloads are taken to succeed; those of delHandle and of checkExpiredFiles are not. A panic
-- is an outcome of its own. No definition runs on fuel: loops over slices and maps are structural,
-- the ten attempts at sending a fragment are counted down, what is typed and what the chain answers
-- while it synchronises are lists, the loop of trackFile is modelled by one pass of its body, and
-- sdkMgt by any number of its rounds.
--
-- Not modelled: the wait for a place in max_concurrent_req_ch and max_concurrent_get_ch, logging,
-- sleeping, the timers themselves, the discovery of peers, and the other commands. Of two requests at
-- once only the tracker's threads are modelled, and the two accesses of GetAllPeerId to its map.
pub mod Base
pub mod TrackQueue
pub mod Http
pub mod Chain
pub mod Access
pub mod Admission
pub mod Chunks
pub mod Tracker
pub mod Restore
pub mod Track
pub mod Server
pub mod Upload
pub mod Sync
pub mod Delete
pub mod Config
pub mod Peers
pub mod Download
pub mod Schedule
pub mod Start
pub mod ContentTypes
pub mod Tests
