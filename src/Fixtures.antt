-- ===== src/Fixtures.antt =====
-- Sample states and surroundings for the tests.
use dynamic_nft_krnl.Base.{String, ℕ, true, false, none, some, [], ◌∷◌, empty, put}
use dynamic_nft_krnl.Base.Int.{pos}
use dynamic_nft_krnl.Js.{
  Runtime, whole, nan, int, Value, null, num, str, arr, obj, nil, cons, end, field,
}
use dynamic_nft_krnl.Store.{set_active_traits, queued, Store, EconomyLedger, Ledgers, LootboxConfig}
use dynamic_nft_krnl.Krnl.Submit.{accepted}
use dynamic_nft_krnl.Krnl.Node.{NodeEnv}
use dynamic_nft_krnl.Krnl.Row.{TrackedRun}
use dynamic_nft_krnl.Mint.{MintEnv}
use dynamic_nft_krnl.Zealy.Reward.{found}
use dynamic_nft_krnl.Zealy.Handler.{WebhookEnv, Delivery}
use dynamic_nft_krnl.Me.{MeEnv}

-- Reads no text as a number, and leaves case alone.
abbrev pub plain : Runtime
plain = record {
  read_number = λ s. whole nan;
  show_number = λ n. "0";
  to_lower = λ s. s;
  to_upper = λ s. s;
}

abbrev pub earned : EconomyLedger
earned = record { zealy_xp_total = pos 1000; xp_spent = pos 200; loot_keys_balance = pos 2 }

-- One wallet with two keys that all ledgers show, and a token.
unfoldable pub two_keys : Ledgers
unfolding put
two_keys = record {
  economy = put "acme" "0xa" earned empty;
  xp_ledger = put "acme" "0xa" (pos 1000) empty;
  loot_ledger = put "acme" "0xa" (pos 2) empty;
  loot_balance = put "acme" "0xa" (pos 2) empty;
  user_ledger =
      put "acme" "0xa" (record { token_id = some "7"; total_xp = pos 800; loot_keys = pos 2 })
        empty;
}

abbrev pub loot_table : Value
loot_table = obj (
    field "entries"
      (arr (
        cons
          (obj (
            field "traitName" (str "hat")
              (field "traitValue" (str "gold") (field "weight" (num (whole (int (pos 3)))) end))))
          nil))
      end)

abbrev pub lootbox : LootboxConfig
lootbox = record {
  enabled = true;
  xp_per_loot_key = pos 100;
  loot_keys_per_open = pos 1;
  max_unlocks_per_open = pos 1;
  loot_table = loot_table;
}

abbrev pub shop : Store
shop = record {
  brands = λ b. some (record { sponsorship_credits = pos 20000 });
  nft_configs = λ b. some (record { active_asset_pack_id = some "pack" });
  connections =
      record { brand_id = "acme"; community_id = "acme-hq"; webhook_secret = some "s3cret" } ∷ [];
  lootbox_configs = λ b. some lootbox;
  reward_rules = empty;
  quest_reward_rules = λ b q. some (record { enabled = true; loot_key_delta = pos 3 });
  zealy_quests = empty;
  identities = empty;
  brand_users = empty;
  memberships = empty;
  ownerships = [];
  tokens = λ t. none;
  ledgers = two_keys;
  events = λ e. none;
  audits = [];
  user_traits = [];
  unlocked_traits = [];
  runs = [];
}

abbrev pub mint_env : MintEnv
mint_env = record {
  demo_mode = false;
  demo_token_id = λ b w. "1";
  random_run_id = "run-1";
  random_request_id = "request-1";
  payload_intent_id = none;
  answer = accepted "request-9" (some "intent-9") none;
}

abbrev pub webhook_env : WebhookEnv
webhook_env = record {
  runtime = plain;
  shared_secret = none;
  hash_payload = λ v. "hash";
  look_up = λ c w. found (whole (int (pos 1500)));
  mint = mint_env;
}

abbrev pub completion : Delivery
completion = record {
  brand_id = "acme";
  community_id = "acme-hq";
  event_type = "quest_completed";
  event_id = "event-1";
  quest_id = "quest-1";
  wallet = "0xa";
  payload = obj end;
}

-- A generator that always returns one half.
abbrev pub one_half : ℕ → ℕ
one_half i = 4503599627370496

abbrev pub me_env : MeEnv
me_env = record {
  runtime = plain;
  prices = record { xp_price_per_lootkey = none; xp_per_lootkey = none };
  random = one_half;
  mint = mint_env;
  run_id = "run-2";
  payload_intent_id = none;
  answer = accepted "request-2" (some "intent-2") none;
  encodes = λ t es. true;
}

-- A node whose every answer is the one given.
abbrev pub node_saying : Value → NodeEnv
node_saying v = record {
  runtime = plain;
  parse_json = λ s. none;
  rpc_answer = λ id. some (true, v);
  http_answer = λ id. some (true, v);
}

abbrev pub with_code : ℕ → Value
with_code n = obj (field "code" (num (whole (int (pos n)))) end)

abbrev pub a_hash : String
a_hash = "0x0123456789abcdef0123456789abcdef0123456789abcdef0123456789abcdef"

-- A success by its status text, with a hash.
abbrev pub success_answer : Value
success_answer = obj (field "status" (str "success") (field "txHash" (str a_hash) end))

abbrev pub open_run : TrackedRun
open_run = record {
  id = "run-7";
  brand_id = "acme";
  wallet = "0xa";
  run_type = set_active_traits;
  request_id = some "request-7";
  tx_intent_id = none;
  intent_id = none;
  created_at = 1000;
  rendered_workflow = obj (
      field "metadata"
        (obj (
          field "selectedTraits"
            (arr
              (cons (obj (field "traitKey" (str "hat") (field "traitValue" (str "grey") end))) nil))
            end))
        end);
  status = queued;
  krnl_execution_hash = none;
  chain_tx_hash = none;
  tx_hash = none;
  error = none;
  krnl_status = null;
  steps = null;
  is_completed = false;
}
