-- ===== src/Me/Open.antt =====
-- `POST /me/open-lootbox`.
use Prim.Native.String
use text.Mathlib.Text.{◌==◌}
use dynamic_nft_krnl.Base.{
  ℕ, Bool, true, false, ◌&&◌, not, Option, none, some, String, List, [], ◌∷◌, if◌then◌else◌,
}
use dynamic_nft_krnl.Base.Int.{ℤ, pos, ltb_ℤ, max_ℤ}
use dynamic_nft_krnl.Base.Text.{is_empty}
use dynamic_nft_krnl.Js.{Value, obj, arr, nil, field, end}
use dynamic_nft_krnl.Lootbox.{
  LootTableEntry, normalize_loot_table_entries, sample_weighted_loot_entries,
}
use dynamic_nft_krnl.Store.{
  Store, LootboxConfig, NftConfig, EconomyLedger, UnlockedTrait, open_lootbox,
}
use dynamic_nft_krnl.Krnl.Submit.{SubmitArgs, WorkflowSubmission, submit_workflow}
use dynamic_nft_krnl.Mint.{
  minted, submitted, EnsureBaseNftMintResult, ensure_base_nft_minted, non_empty,
}
use dynamic_nft_krnl.Ledger.{consume}
use dynamic_nft_krnl.Me.{
  MeEnv, Auth, Response, internal_error, brand_id_of, failure, mint_submitted, opened,
}

-- What is drawn before any key is spent.
pub data Draw : Type 0 where
  refused : ℕ → String → Draw
  drawn : ℤ → List LootTableEntry → Draw

abbrev pub asset_pack_of : Option NftConfig → Option String
asset_pack_of none = none
asset_pack_of (some c) = non_empty c.active_asset_pack_id

abbrev default_config : LootboxConfig
default_config = record {
  enabled = true;
  xp_per_loot_key = pos 100;
  loot_keys_per_open = pos 1;
  max_unlocks_per_open = pos 1;
  loot_table = obj (field "entries" (arr nil) end);
}

-- The configuration, or what stands for a missing one.
abbrev pub config_of : Option LootboxConfig → LootboxConfig
config_of none = default_config
config_of (some c) = c

abbrev pub keys_per_open : String → Store → ℤ
keys_per_open brand s = max_ℤ (pos 1) (config_of (s.lootbox_configs brand)).loot_keys_per_open

abbrev pub keys_of : Option EconomyLedger → ℤ
keys_of none = pos 0
keys_of (some r) = max_ℤ (pos 0) r.loot_keys_balance

-- The keys of the traits that the wallet has for the brand.
unfoldable pub unlocked_keys :
    String → String → List (String × String × String × String) → List String
unlocked_keys brand wallet [] = []
unlocked_keys brand wallet (t ∷ ts) =
    let rest = unlocked_keys brand wallet ts in
    if t.0 == brand && t.1 == wallet then String.◌++◌ t.2 (String.◌++◌ "::" t.3) ∷ rest else rest

unfoldable pub is_nil : List LootTableEntry → Bool
is_nil [] = true
is_nil (e ∷ es) = false

-- 409 where nothing could be picked.
unfoldable pub draw_of : ℤ → List LootTableEntry → Draw
unfolding is_nil
draw_of keys picked =
    if is_nil picked
    then refused 409 "No unlockable traits remaining for current lootbox"
    else drawn keys picked

-- The entries picked for a wallet.
unfoldable pub draw_entries : MeEnv → String → String → Store → Draw
unfolding sample_weighted_loot_entries normalize_loot_table_entries unlocked_keys draw_of
draw_entries env brand wallet s =
    let c = config_of (s.lootbox_configs brand) in
    draw_of (keys_per_open brand s) (
      sample_weighted_loot_entries (normalize_loot_table_entries env.runtime c.loot_table)
        (max_ℤ (pos 1) c.max_unlocks_per_open) (unlocked_keys brand wallet s.user_traits) none
        env.random)

-- The checks of `/me/open-lootbox` between the mint and the transaction.
unfoldable pub prepare_open : MeEnv → String → String → Store → Draw
unfolding draw_entries normalize_loot_table_entries is_nil
prepare_open env brand wallet s = elim (asset_pack_of (s.nft_configs brand)) [
  | none ↦ refused 400 "Brand active asset pack is not set"
  | some _ ↦
      let c = config_of (s.lootbox_configs brand) in
      if not c.enabled
      then refused 400 "Lootbox is disabled for this brand"
      else if is_nil (normalize_loot_table_entries env.runtime c.loot_table)
      then refused 400 "Lootbox config enabled but loot table is empty"
      else if ltb_ℤ (keys_of (s.economy brand wallet)) (keys_per_open brand s)
      then refused 400 "Insufficient loot keys"
      else draw_entries env brand wallet s
]

abbrev pub is_trait : String → String → LootTableEntry → String → String → String → String → Bool
is_trait brand wallet e b w n v =
    (b == brand && w == wallet) && (n == e.trait_name && v == e.trait_value)

-- `brandUserUnlockedTrait.createMany` for one entry, duplicates skipped.
unfoldable pub add_user_trait :
    String
    → String
    → LootTableEntry
    → List (String × String × String × String)
    → List (String × String × String × String)
add_user_trait brand wallet e [] = (brand, wallet, e.trait_name, e.trait_value) ∷ []
add_user_trait brand wallet e (t ∷ ts) =
    let rest = add_user_trait brand wallet e ts in
    if is_trait brand wallet e t.0 t.1 t.2 t.3 then t ∷ ts else t ∷ rest

-- The same for `unlockedTrait`; a new trait is not active.
unfoldable pub add_unlocked_trait :
    String → String → LootTableEntry → List UnlockedTrait → List UnlockedTrait
add_unlocked_trait brand wallet e [] =
    record {
      brand_id = brand;
      wallet = wallet;
      trait_key = e.trait_name;
      trait_value = e.trait_value;
      is_active = false;
    }
    ∷ []
add_unlocked_trait brand wallet e (t ∷ ts) =
    let rest = add_unlocked_trait brand wallet e ts in
    if is_trait brand wallet e t.brand_id t.wallet t.trait_key t.trait_value
    then t ∷ ts
    else t ∷ rest

unfoldable pub add_all {ℓ} : {A : Type ℓ} → (LootTableEntry → A → A) → List LootTableEntry → A → A
add_all add [] a = a
add_all add (e ∷ es) a = add_all add es (add e a)

-- The transaction of `/me/open-lootbox`; `none` where the keys are gone by then.
unfoldable pub unlock : String → String → ℤ → List LootTableEntry → Store → Option (ℤ × Store)
unfolding consume add_all add_user_trait add_unlocked_trait
unlock brand wallet keys picked s = elim (consume brand wallet keys s.ledgers) [
  | none ↦ none
  | some (balance, l) ↦ some (
    balance,
    record s {
      ledgers = l;
      user_traits = add_all (add_user_trait brand wallet) picked s.user_traits;
      unlocked_traits = add_all (add_unlocked_trait brand wallet) picked s.unlocked_traits;
    },
  )
]

abbrev pub opened_as : ℤ → ℤ → List LootTableEntry → Option WorkflowSubmission → Response
opened_as keys balance picked none = internal_error
opened_as keys balance picked (some w) = opened w picked keys balance

-- After the transaction: the workflow is submitted; an exception leaves what was written.
unfoldable pub submit_open :
    MeEnv → String → String → String → ℤ → ℤ → List LootTableEntry → Store → Response × Store
unfolding submit_workflow
submit_open env brand wallet token keys balance picked s =
    if env.encodes token picked
    then (let args : SubmitArgs = record {
      run_id = env.run_id;
      brand_id = brand;
      wallet = wallet;
      run_type = open_lootbox;
      payload_intent_id = env.payload_intent_id;
    } in
        let r = submit_workflow args env.answer s.runs in
        (opened_as keys balance picked r.0, record s { runs = r.1 }))
    else (internal_error, s)

-- The keys are spent and the traits unlocked.
unfoldable pub unlock_and_submit :
    MeEnv → String → String → String → ℤ → List LootTableEntry → Store → Response × Store
unfolding unlock submit_open
unlock_and_submit env brand wallet token keys picked s = elim (unlock brand wallet keys picked s) [
  | none ↦ (failure 400 "Insufficient loot keys", s)
  | some (balance, t) ↦ submit_open env brand wallet token keys balance picked t
]

-- The part of the handler once the token is known.
unfoldable pub open_with_token : MeEnv → String → String → String → Store → Response × Store
unfolding prepare_open unlock_and_submit
open_with_token env brand wallet token s = elim (prepare_open env brand wallet s) [
  | refused code why ↦ (failure code why, s)
  | drawn keys picked ↦ unlock_and_submit env brand wallet token keys picked s
]

-- The answer to a mint: wait, go on with the token, or give up.
unfoldable pub open_after_mint :
    MeEnv → String → String → EnsureBaseNftMintResult → Store → Response × Store
unfolding open_with_token
open_after_mint env brand wallet r s = elim r.state [
  | submitted ↦ (mint_submitted r, s)
  | minted ↦ elim (non_empty r.token_id) [
    | none ↦ (failure 500 "Unable to resolve tokenId for lootbox action", s)
    | some token ↦ open_with_token env brand wallet token s
  ]
]

-- The handler for a brand that exists.
unfoldable pub open_for_wallet : MeEnv → String → String → Store → Response × Store
unfolding ensure_base_nft_minted open_after_mint
open_for_wallet env brand wallet s =
    let m = ensure_base_nft_minted env.mint brand wallet s in
    elim m.0 [ none ↦ (internal_error, m.1) | some r ↦ open_after_mint env brand wallet r m.1 ]

-- `POST /me/open-lootbox`.
unfoldable pub handle_open_lootbox : MeEnv → Option Auth → Value → Store → Response × Store
unfolding brand_id_of open_for_wallet
handle_open_lootbox env none body s = (failure 401 "Unauthorized", s)
handle_open_lootbox env (some auth) body s = elim (non_empty auth.wallet_address) [
  | none ↦ (failure 400 "Missing wallet address", s)
  | some wallet ↦
      let brand = brand_id_of env.runtime body in
      if is_empty brand then (failure 400 "brandId required", s) else elim (s.brands brand) [
        | none ↦ (failure 404 "Brand not found", s)
        | some _ ↦ open_for_wallet env brand wallet s
      ]
]
