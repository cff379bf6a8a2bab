-- ===== src/Krnl.antt =====
-- apps/api/src/services/krnlService.ts and krnlIntentIdResolver.ts: the workflow runs that the API
-- submits to the KRNL node and keeps track of.
pub mod Submit
pub mod Node
pub mod Status
pub mod Message
pub mod Row
pub mod Writes
pub mod Poll
pub mod Rounds
pub mod Waited
pub mod Ways
mod Tests
