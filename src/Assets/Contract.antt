-- ===== src/Assets/Contract.antt =====
-- The contract of a brand with its active pack: POST /brands/:brandId/nft/contract of
-- apps/api/src/routes/brands.ts.
use dynamic_nft_krnl.Base.{
  ℕ, Bool, true, false, not, ◌||◌, Option, none, some, String, if◌then◌else◌,
}
use dynamic_nft_krnl.Base.Int.{ℤ}
use dynamic_nft_krnl.Base.Text.{is_empty}
use dynamic_nft_krnl.Js.{
  if_text, Number, whole, int, nan, pos_inf, neg_inf, frac, Value, undefined, null, bool, num, str,
  arr, obj, Fields, get, fields_of, truthy, number_of,
}
use dynamic_nft_krnl.Me.{Auth}
use dynamic_nft_krnl.Brands.{Answer, refused, saved}
use dynamic_nft_krnl.Assets.{ContractConfig, Assets, AssetsEnv, set_at, find_pack, for_owner}

-- `Number.isInteger`.
abbrev pub as_integer : Number → Option ℤ
as_integer (whole (int n)) = some n
as_integer (whole nan) = none
as_integer (whole pos_inf) = none
as_integer (whole neg_inf) = none
as_integer (frac n f) = none

-- The active pack that is asked for: left as it is, none, or one by its id, which must be a text.
pub data Choice : Type 0 where
  unchanged none_active wrong_type : Choice
  chosen : String → Choice

unfoldable pub choice_of : Value → Choice
unfolding truthy
choice_of undefined = unchanged
choice_of null = none_active
choice_of (str p) = if is_empty p then none_active else chosen p
choice_of (bool b) = if b then wrong_type else none_active
choice_of (num n) = if truthy (num n) then wrong_type else none_active
choice_of (arr vs) = wrong_type
choice_of (obj fs) = wrong_type

abbrev pub active_before : String → Assets → Option String
active_before brand s = elim (s.nft_configs brand) [ none ↦ none | some c ↦ c.active_asset_pack_id ]

-- The active pack of the row to be written, or why there is none.
pub data Chosen : Type 0 where
  unfit : ℕ → String → Chosen
  active : Option String → Chosen

unfoldable pub choose_pack : String → Choice → Assets → Chosen
unfolding find_pack
choose_pack brand unchanged s = active (active_before brand s)
choose_pack brand none_active s = active none
choose_pack brand wrong_type s = unfit 500 "Internal server error"
choose_pack brand (chosen p) s = elim (find_pack brand p s) [
  | none ↦ unfit 400 "Active asset pack not found for brand"
  | some row ↦ active (some p)
]

abbrev pub contract_row : String → ℤ → String → Option String → ContractConfig
contract_row address chain rpc pack = record {
  contract_address = address;
  chain_id = chain;
  rpc_url = rpc;
  active_asset_pack_id = pack;
}

-- The columns of the address and of the URL are texts.
unfoldable pub write_contract :
    String → Option String → ℤ → Option String → Chosen → Assets → Answer (Unit {0}) × Assets
unfolding set_at
write_contract brand (some a) chain (some r) (active pack) s =
    (saved tt, record s { nft_configs = set_at brand (contract_row a chain r pack) s.nft_configs })
write_contract brand address chain rpc (unfit code m) s = (refused code m, s)
write_contract brand address chain rpc (active pack) s = (refused 500 "Internal server error", s)

abbrev pub is_missing : Value → Bool
is_missing undefined = true
is_missing null = true
is_missing _ = false

unfoldable pub set_checked_contract :
    AssetsEnv → Auth → String → Fields → Option ℤ → Assets → Answer (Unit {0}) × Assets
unfolding for_owner choose_pack choice_of write_contract get
set_checked_contract env auth brand fs none s = (refused 400 "Invalid chainId", s)
set_checked_contract env auth brand fs (some chain) s =
    let pack = choose_pack brand (choice_of (get "activeAssetPackId" fs)) s in
    for_owner env "Forbidden" auth brand s (
      write_contract brand (if_text (get "contractAddress" fs)) chain (if_text (get "rpcUrl" fs))
        pack s)

-- POST /brands/:brandId/nft/contract.
unfoldable pub set_contract :
    AssetsEnv → Auth → String → Value → Assets → Answer (Unit {0}) × Assets
unfolding set_checked_contract get fields_of truthy number_of
set_contract env auth brand body s =
    let fs = fields_of body in
    let chain = get "chainId" fs in
    if not (truthy (get "contractAddress" fs)) || is_missing chain || not (truthy (get "rpcUrl" fs))
    then (refused 400 "Missing NFT contract params", s)
    else set_checked_contract env auth brand fs (as_integer (number_of env.runtime chain)) s
