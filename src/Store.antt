-- ===== src/Store.antt =====
-- The database that the API's handlers and workers share: one field for each table they read or
-- write, after apps/api/prisma/schema.prisma. A table that is unique by two columns is a `Table`;
-- one that is searched by other columns is a list, newest row first. `Int` columns are unbounded
-- integers.
use dynamic_nft_krnl.Base.{Bool, Option, String, List, Table}
use dynamic_nft_krnl.Base.Int.{ℤ}
use dynamic_nft_krnl.Js.{Value}

-- `sponsorshipCredits` is a `Decimal(20, 4)`: here in units of 0.0001.
pub record Brand : Type 0 where
  pub sponsorship_credits : ℤ

pub record NftConfig : Type 0 where
  pub active_asset_pack_id : Option String

pub record ZealyConnection : Type 0 where
  pub brand_id : String
  pub community_id : String
  pub webhook_secret : Option String

pub record LootboxConfig : Type 0 where
  pub enabled : Bool
  pub xp_per_loot_key : ℤ
  pub loot_keys_per_open : ℤ
  pub max_unlocks_per_open : ℤ
  pub loot_table : Value

pub record BrandRewardRule : Type 0 where
  pub enabled : Bool
  pub loot_keys_delta : ℤ
  pub xp_mode : String
  pub xp_override : Option ℤ

pub record BrandQuestRewardRule : Type 0 where
  pub enabled : Bool
  pub loot_key_delta : ℤ

pub record EconomyLedger : Type 0 where
  pub zealy_xp_total : ℤ
  pub xp_spent : ℤ
  pub loot_keys_balance : ℤ

pub record BrandUserLedger : Type 0 where
  pub token_id : Option String
  pub total_xp : ℤ
  pub loot_keys : ℤ

-- The five ledgers that hold a wallet's experience and loot keys for a brand.
pub record Ledgers : Type 0 where
  pub economy : Table EconomyLedger
  pub xp_ledger : Table ℤ
  pub loot_ledger : Table ℤ
  pub loot_balance : Table ℤ
  pub user_ledger : Table BrandUserLedger

pub data EventStatus : Type 0 where
  received processing processed ignored enqueued failed : EventStatus

pub record WebhookEvent : Type 0 where
  pub brand_id : String
  pub community_id : String
  pub event_type : String
  pub payload : Value
  pub status : EventStatus
  pub is_processed : Bool
  pub error : Option String

pub record RewardAudit : Type 0 where
  pub brand_id : String
  pub wallet : String
  pub quest_id : String
  pub xp_delta : ℤ
  pub loot_key_delta : ℤ
  pub webhook_event_id : String

pub record TokenOwnership : Type 0 where
  pub brand_id : String
  pub token_id : String
  pub wallet : String

pub record Token : Type 0 where
  pub brand_id : String
  pub owner_address : Option String

pub record UnlockedTrait : Type 0 where
  pub brand_id : String
  pub wallet : String
  pub trait_key : String
  pub trait_value : String
  pub is_active : Bool

pub data RunType : Type 0 where
  set_metadata_uri mint_base_nft open_lootbox set_active_traits quest_reward : RunType

pub data RunStatus : Type 0 where
  queued running succeeded failed : RunStatus

pub record WorkflowRun : Type 0 where
  pub id : String
  pub brand_id : String
  pub wallet : String
  pub run_type : RunType
  pub status : RunStatus
  pub request_id : Option String
  pub tx_intent_id : Option String
  pub intent_id : Option String
  pub error : Option String

pub record Store : Type 0 where
  pub brands : String → Option Brand
  pub nft_configs : String → Option NftConfig
  pub connections : List ZealyConnection
  pub lootbox_configs : String → Option LootboxConfig
  pub reward_rules : Table BrandRewardRule
  pub quest_reward_rules : Table BrandQuestRewardRule
  -- By brand and quest: the experience of a synced quest.
  pub zealy_quests : Table (Option ℤ)
  -- By brand and Zealy user: the wallet.
  pub identities : Table String
  pub brand_users : Table (Unit {0})
  -- By brand and wallet: the token of the membership with the role "evolving".
  pub memberships : Table String
  pub ownerships : List TokenOwnership
  pub tokens : String → Option Token
  pub ledgers : Ledgers
  pub open ledgers use *
  -- By `zealyEventId`, which is unique.
  pub events : String → Option WebhookEvent
  pub audits : List RewardAudit
  -- `brandUserUnlockedTrait` and `unlockedTrait`.
  pub user_traits : List (String × String × String × String)
  pub unlocked_traits : List UnlockedTrait
  pub runs : List WorkflowRun
