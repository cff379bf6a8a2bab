-- ===== src/Lib.antt =====
-- Verification library of the dynamic NFT service (apps/api).
--
-- The service keeps, for each brand and wallet, experience earned by quests on Zealy, loot keys bought
-- with it, and traits won by opening lootboxes with the keys. Webhooks bring completed quests; the
-- owner's handlers buy keys and open lootboxes; both first make sure that the wallet's token is minted,
-- by a workflow that is submitted to a KRNL node. All of them share one database.
--
-- The files, and the code they model:
-- - Base and its children: the library's names, native integers, keyed tables, text.
-- - Js: numbers, dynamic values and conversions of the language. A number is NaN, an infinity, an
--   integer or a fraction; integers are exact, so results above 2^53 are not rounded.
-- - Store: the database's tables as one record (apps/api/prisma/schema.prisma). Columns of type Int
--   are unbounded integers; columns that the modelled code only writes, timestamps among them, are
--   left out.
-- - Economy: apps/api/src/services/lootboxEconomyService.ts and rewardRulePolicy.ts.
-- - Lootbox: apps/api/src/services/lootboxSamplingService.ts; a random number is a multiple of 2^-53,
--   and the sampling loop runs on the attempts that the code itself allows.
-- - Json: JSON.stringify.
-- - Template: the placeholders of workflow templates (apps/api/src/services/workflowTemplateService.ts);
--   the replacement runs over the text by recursion.
-- - Krnl.Submit: submitWorkflow of apps/api/src/services/krnlService.ts, for each end of the request.
-- - Krnl.Node: how the node's answers are read (apps/api/src/services/krnlNodeClient.ts). Krnl.Status,
--   Krnl.Message, Krnl.Row, Krnl.Writes and Krnl.Poll: the tracking of a run and the loops that wait for it
--   (krnlService.ts). A loop runs on rounds, each with its clock, its answer and its receipts; as the
--   clock moves on by the interval at least, the time allowed divided by the interval is enough rounds,
--   and Krnl.Waited shows that the loops end within them, from what Krnl.Rounds shows of a round.
-- - Poller: one run of a poll of apps/api/src/services/krnlRunPoller.ts, its readers in Poller.Found, and
--   pollOnce in Poller.Round.
-- - Mint: ensureBaseNftMinted of apps/api/src/services/nftService.ts, tokenService.ts.
-- - Ledger: the transactions on the ledgers in apps/api/src/routes/zealy.ts and me.ts. A transaction
--   gives all of its writes or none.
-- - Zealy: apps/api/src/routes/zealy.ts, its payload readers (Payload), the reward (Reward), what both
--   routes do once they have read a request, `receive` (Handler), and the routes (Handler.Webhooks).
-- - Me: the handlers handleLootKeysBuy (Buy), /me/open-lootbox (Open) and /me/traits/activate (Activate)
--   of apps/api/src/routes/me.ts.
-- - Worker: apps/api/src/services/zealyAutomationWorker.ts: the queue (Queue), the event worker
--   (Events), the actions (Actions, Actions.Kinds) and rounds of the action worker (Run).
-- - Access: apps/api/src/middleware/requireAuth.ts and requirePortal.ts; Access.Routes: the routes of
--   apps/api/src/routes/auth.ts that choose a portal and log out; the brand that a path names in
--   Access.BrandPath, and requireDelegatedWallet.ts in Access.Delegated.
-- - Rewards: processZealyEvent of apps/api/src/services/zealyEventProcessor.ts, with
--   resolveEvolvingTokenId of nftService.ts; Rewards.Quest: executeQuestReward of
--   rewardExecutionService.ts.
-- - Brands: the routes of apps/api/src/routes/brands.ts that set the reward of a quest (Reward) and the
--   lootbox (Config), and the one to join a brand (Join).
-- - Assets: asset packs, uploads (Upload) and the contract (Contract) of brands.ts, and
--   apps/api/src/routes/metadata.ts: the drawn image (Render) and the metadata of a token (Metadata). The object store of s3Service.ts is a
--   table; its answer to a new object is given. Assets.Whole.Requests runs requests one after another.
-- - Billing: the payment callback of apps/api/src/routes/billing.ts; Billing.Start: the guards of a
--   payment's start in brands.ts, a list in their order; Billing.Start.Route: the route; Billing.Amount:
--   an amount in units of USDC, rounded as floating point does on whole multiples of 2^-1074 (2200 bits
--   are more than the largest finite amount has), and in credits; Billing.Rounded: what rounding moves.
-- - History: sequences of these operations.
-- - Fixtures and the modules called Tests: sample states, and the theorems at concrete inputs.
--
-- Handlers are functions from the state to an answer and the next state; each runs on its own, as one
-- step, and exceptions are answers. What remote services answer (Zealy's API, the KRNL node, the chain,
-- random numbers, hashes, text case, number syntax, verified tokens) is a parameter. Not modelled:
-- failures of the database itself (but for writes of a value that is of another type than the column's
-- or that refers to no row), requests that interleave inside one handler (but for what others write while
-- an action or the poller waits), the clients of remote services (the object store fails only to take an object,
-- or to find one), the other routes that only read or that store configuration (the rest of brands.ts
-- among them), the encoders of authentication data, and the web application.
pub mod Base
pub mod Billing
pub mod Js
pub mod Json
pub mod Economy
pub mod Lootbox
pub mod Store
pub mod Krnl
pub mod Mint
pub mod Ledger
pub mod Zealy
pub mod Me
pub mod Worker
pub mod History
pub mod Poller
pub mod Access
pub mod Rewards
pub mod Brands
pub mod Assets
pub mod Template
pub mod Fixtures
