-- ===== src/Zealy/Reward.antt =====
-- The reward of a completed quest: the rule that applies, the experience that counts, and the
-- transaction that writes the reward.
use text.Mathlib.Text.{◌==◌}
use dynamic_nft_krnl.Base.{Bool, true, Option, none, some, String, ◌∷◌, if◌then◌else◌, or_else, any}
use dynamic_nft_krnl.Base.Int.{ℤ, pos, ◌-ℤ◌, ltb_ℤ, max_ℤ}
use dynamic_nft_krnl.Js.{Runtime, Whole, int, Number, whole, frac, max_whole, str, Fields}
use dynamic_nft_krnl.Economy.{
  EffectiveRewardRule, zealy, compute_webhook_credits, normalize_xp_mode,
}
use dynamic_nft_krnl.Store.{Store, EconomyLedger, WebhookEvent, EventStatus, processed, RewardAudit}
use dynamic_nft_krnl.Ledger.{credit_ledgers, column}
use dynamic_nft_krnl.Zealy.Payload.{resolve_zealy_xp_from_payload}

-- How the lookup of a user at Zealy's API ends: `user.xp`, a `ZealyApiError`, or another exception.
pub data Lookup : Type 0 where
  found : Number → Lookup
  api_error other_error : Lookup

-- `Math.max(0, x)`.
unfoldable pub at_least_zero : Number → Number
unfolding max_whole
at_least_zero (whole w) = whole (max_whole (int (pos 0)) w)
at_least_zero (frac n f) = if ltb_ℤ n (pos 0) then whole (int (pos 0)) else frac n f

-- A column of type `Int`, written with any number.
abbrev pub int_column : Number → Option ℤ
int_column (whole w) = column w
int_column (frac n f) = none

-- The experience by Zealy's API, or else the quest's; `none` where the lookup throws.
unfoldable pub xp_of_lookup : Lookup → ℤ → Option Number
unfolding at_least_zero
xp_of_lookup (found xp) fallback_quest_xp = some (at_least_zero xp)
xp_of_lookup api_error fallback_quest_xp = some (whole (int (max_ℤ (pos 0) fallback_quest_xp)))
xp_of_lookup other_error fallback_quest_xp = none

module _ (rt : Runtime) where
  -- `none` where the lookup throws.
  unfoldable pub resolve_zealy_xp_total : Fields → Lookup → ℤ → Option Number
  unfolding resolve_zealy_xp_from_payload xp_of_lookup
  resolve_zealy_xp_total payload lookup fallback_quest_xp =
      elim (resolve_zealy_xp_from_payload rt payload) [
        | some n ↦ some (whole (int n))
        | none ↦ xp_of_lookup lookup fallback_quest_xp
      ]

  unfoldable pub get_effective_reward_rule : String → String → Store → EffectiveRewardRule
  unfolding normalize_xp_mode
  get_effective_reward_rule brand quest s = elim (s.reward_rules brand quest) [
    | some r ↦ record {
      enabled = r.enabled;
      loot_keys_delta = whole (int r.loot_keys_delta);
      xp_mode = or_else (normalize_xp_mode rt (str r.xp_mode)) zealy;
      xp_override = elim r.xp_override [ none ↦ none | some n ↦ some (whole (int n)) ];
    }
    | none ↦ elim (s.quest_reward_rules brand quest) [
      | some r ↦ record {
        enabled = r.enabled;
        loot_keys_delta = whole (int r.loot_key_delta);
        xp_mode = zealy;
        xp_override = none;
      }
      | none ↦ record {
        enabled = true;
        loot_keys_delta = whole (int (pos 0));
        xp_mode = zealy;
        xp_override = none;
      }
    ]
  ]

-- `creditedLootKeys` of the handlers.
unfoldable pub credited_loot_keys_of : EffectiveRewardRule → Number → Whole
unfolding compute_webhook_credits
credited_loot_keys_of rule xp =
    if rule.enabled then (compute_webhook_credits rule xp).credited_loot_keys else int (pos 0)

-- The row of one event replaced.
unfoldable pub put_event :
    String → WebhookEvent → (String → Option WebhookEvent) → String → Option WebhookEvent
put_event id e events i = if id == i then some e else events i

-- The end of an event's processing.
abbrev pub closed : EventStatus → Option String → WebhookEvent → WebhookEvent
closed st err e = record e { status = st; is_processed = true; error = err }

abbrev pub is_for : String → RewardAudit → Bool
is_for id a = a.webhook_event_id == id

-- The experience an economy row shows before the reward.
abbrev pub previous_xp : Option EconomyLedger → ℤ
previous_xp none = pos 0
previous_xp (some r) = max_ℤ (pos 0) r.zealy_xp_total

pub record RewardArgs : Type 0 where
  pub brand_id : String
  pub wallet : String
  pub quest_id : String
  pub event_id : String
  pub xp_total : Number
  pub loot_key_delta : Whole

-- The writes of the transaction, for numbers that fit their columns.
unfoldable pub write_reward : RewardArgs → ℤ → ℤ → WebhookEvent → Store → Store
unfolding credit_ledgers put_event
write_reward a total delta e s = record s {
  ledgers = credit_ledgers a.brand_id a.wallet total delta s.ledgers;
  audits =
      record {
        brand_id = a.brand_id;
        wallet = a.wallet;
        quest_id = a.quest_id;
        xp_delta = total -ℤ previous_xp (s.economy a.brand_id a.wallet);
        loot_key_delta = delta;
        webhook_event_id = a.event_id;
      }
      ∷ s.audits;
  events = put_event a.event_id (closed processed none e) s.events;
}

-- `applyWebhookReward`; `none` is an exception, which rolls the transaction back: a number that is
-- no integer, a second audit of the event (its id is unique), or an event that is not there.
unfoldable pub apply_webhook_reward : RewardArgs → Store → Option Store
unfolding write_reward any
apply_webhook_reward a s = elim (int_column a.xp_total) [
  | none ↦ none
  | some total ↦ elim (column a.loot_key_delta) [
    | none ↦ none
    | some delta ↦ if any (is_for a.event_id) s.audits then none else elim (s.events a.event_id) [
      | none ↦ none
      | some e ↦ some (write_reward a total delta e s)
    ]
  ]
]
