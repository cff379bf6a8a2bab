-- ===== src/Zealy.antt =====
-- apps/api/src/routes/zealy.ts, with `normalizeZealyWebhookPayload` of zealyService.ts and
-- `buildZealyEventId` of zealyAutomationWorker.ts: the webhooks by which Zealy reports quests.
pub mod Payload
pub mod Reward
pub mod Written
pub mod Handler
pub mod Gains
mod Tests
