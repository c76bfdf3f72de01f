-- ===== src/Tests.antt =====
-- Runs of the modelled code at concrete inputs, which satisfy the hypotheses of the theorems.
mod Sample
mod Uploads
mod Chunked
mod Requests
mod Tracking
mod Listed
mod Restoring
mod Deleting
mod Settings
mod Discovered
mod Fetching
mod Scheduled
mod Opened
mod Started
