-- ===== src/Worker.antt =====
-- apps/api/src/services/zealyAutomationWorker.ts: the workers that turn stored events into actions
-- and run the actions on the chain.
pub mod Queue
pub mod Events
pub mod Actions
pub mod Run
pub mod Deduped
pub mod Kept
pub mod Rounds
pub mod Bounded
pub mod Charged
pub mod Priced
mod Tests
