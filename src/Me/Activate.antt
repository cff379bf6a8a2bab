-- ===== src/Me/Activate.antt =====
-- `POST /me/traits/activate`.
use Prim.Native.String
use text.Mathlib.Text.{◌==◌}
use dynamic_nft_krnl.Base.{
  Bool, true, false, ◌&&◌, ◌||◌, Option, none, some, String, List, [], ◌∷◌, map, if◌then◌else◌, ltb,
  any, keep, length, ◌==◌ as eqb,
}
use dynamic_nft_krnl.Base.Text.{is_empty, trim}
use dynamic_nft_krnl.Js.{
  Runtime, Value, undefined, null, bool, num, str, arr, obj, get, fields_of, or_value, text_of,
  array_of,
}
use dynamic_nft_krnl.Store.{Store, UnlockedTrait, set_active_traits}
use dynamic_nft_krnl.Krnl.Submit.{SubmitArgs, WorkflowSubmission, submit_workflow}
use dynamic_nft_krnl.Mint.{
  minted, submitted, EnsureBaseNftMintResult, ensure_base_nft_minted, non_empty, with_user,
}
use dynamic_nft_krnl.Lootbox.{has}
use dynamic_nft_krnl.Me.{
  MeEnv, Auth, Response, failure, internal_error, mint_submitted, activated, brand_id_of,
}

pub record Selection : Type 0 where
  pub trait_key : String
  pub trait_value : String

unfoldable pub read_selection : Runtime → Value → Selection
unfolding trim text_of or_value get fields_of
read_selection rt v =
    let fs = fields_of v in
    record {
      trait_key =
          trim (text_of rt (or_value (get "traitKey" fs) (or_value (get "traitName" fs) (str ""))));
      trait_value = trim (text_of rt (or_value (get "traitValue" fs) (str "")));
    }

abbrev selection_key : Selection → String
selection_key s = String.◌++◌ s.trait_key (String.◌++◌ "::" s.trait_value)

-- Reading a field of null or undefined throws.
abbrev is_missing : Value → Bool
is_missing undefined = true
is_missing null = true
is_missing (bool b) = false
is_missing (num n) = false
is_missing (str s) = false
is_missing (arr vs) = false
is_missing (obj fs) = false

-- One selection put before the rest, unless it is blank or its key was seen.
abbrev pub add_selection :
    Selection → Bool → Option (List Selection) → Option (List Selection) → Option (List Selection)
add_selection s true taken skipped = skipped
add_selection s false none skipped = none
add_selection s false (some rest) skipped = some (s ∷ rest)

-- The loop over the selections; `none` is an exception.
unfoldable pub unique_selections : Runtime → List Value → List String → Option (List Selection)
unfolding read_selection has
unique_selections rt [] seen = some []
unique_selections rt (v ∷ vs) seen =
    let s = read_selection rt v in
    let skipped = unique_selections rt vs seen in
    let taken = unique_selections rt vs (selection_key s ∷ seen) in
    if is_missing v
    then none
    else add_selection s
        ((is_empty s.trait_key || is_empty s.trait_value) || has (selection_key s) seen) taken
        skipped

abbrev pub is_of : String → String → UnlockedTrait → Bool
is_of brand wallet t = t.brand_id == brand && t.wallet == wallet

abbrev is_selected : UnlockedTrait → Selection → Bool
is_selected t s = t.trait_key == s.trait_key && t.trait_value == s.trait_value

-- `existingTraits`.
unfoldable pub existing_traits :
    String → String → List Selection → List UnlockedTrait → List UnlockedTrait
unfolding keep any
existing_traits brand wallet chosen ts =
    keep (λ t. is_of brand wallet t && any (is_selected t) chosen) ts

-- The two updates of one selection, on one row: other values of the trait are no longer active, and
-- the selected one is.
unfoldable pub activate_row : String → String → Selection → UnlockedTrait → UnlockedTrait
activate_row brand wallet s t =
    if is_of brand wallet t && t.trait_key == s.trait_key
    then record t { is_active = t.trait_value == s.trait_value }
    else t

unfoldable pub activate_all :
    String → String → List Selection → List UnlockedTrait → List UnlockedTrait
unfolding activate_row
activate_all brand wallet [] ts = ts
activate_all brand wallet (s ∷ ss) ts =
    activate_all brand wallet ss (map (activate_row brand wallet s) ts)

-- `activeTraits`.
unfoldable pub active_traits : String → String → List UnlockedTrait → List (String × String)
active_traits brand wallet [] = []
active_traits brand wallet (t ∷ ts) =
    let rest = active_traits brand wallet ts in
    if is_of brand wallet t && t.is_active then (t.trait_key, t.trait_value) ∷ rest else rest

-- The traits after the request: only the demo activates them at once.
unfoldable pub traits_after : MeEnv → String → String → List Selection → Store → Store
unfolding activate_all
traits_after env brand wallet chosen s =
    if env.mint.demo_mode
    then record s { unlocked_traits = activate_all brand wallet chosen s.unlocked_traits }
    else s

-- The workflow is submitted for the selections.
unfoldable pub submit_activation_run :
    MeEnv → String → String → Store → Option WorkflowSubmission × Store
unfolding submit_workflow
submit_activation_run env brand wallet s =
    let args : SubmitArgs = record {
      run_id = env.run_id;
      brand_id = brand;
      wallet = wallet;
      run_type = set_active_traits;
      payload_intent_id = env.payload_intent_id;
    } in
    let r = submit_workflow args env.answer s.runs in (r.0, record s { runs = r.1 })

-- Then the traits are activated, and the active ones answered.
unfoldable pub submit_activation :
    MeEnv → String → String → List Selection → Store → Response × Store
unfolding submit_activation_run traits_after active_traits
submit_activation env brand wallet chosen s =
    let r = submit_activation_run env brand wallet s in
    elim r.0 [
      | none ↦ (internal_error, r.1)
      | some w ↦
          let t = traits_after env brand wallet chosen r.1 in
          (activated w (active_traits brand wallet t.unlocked_traits), t)
    ]

-- The checks of the selections.
unfoldable pub activate_chosen :
    MeEnv → String → String → Option (List Selection) → Store → Response × Store
unfolding existing_traits submit_activation
activate_chosen env brand wallet none s = (internal_error, s)
activate_chosen env brand wallet (some chosen) s =
    if eqb (length chosen) 0
    then (failure 400 "Invalid trait selections", s)
    else if ltb 5 (length chosen)
    then (failure 400 "Maximum 5 active traits allowed", s)
    else if eqb (length (existing_traits brand wallet chosen s.unlocked_traits)) (length chosen)
    then submit_activation env brand wallet chosen s
    else (failure 400 "Trait not unlocked", s)

-- The answer to the mint.
unfoldable pub activate_after_mint :
    MeEnv → String → String → List Value → EnsureBaseNftMintResult → Store → Response × Store
unfolding unique_selections activate_chosen
activate_after_mint env brand wallet selections r s = elim r.state [
  | submitted ↦ (mint_submitted r, s)
  | minted ↦ elim (non_empty r.token_id) [
    | none ↦ (failure 500 "Unable to resolve tokenId for activation", s)
    | some token ↦ activate_chosen env brand wallet (unique_selections env.runtime selections []) s
  ]
]

unfoldable pub activate_for_wallet : MeEnv → String → String → List Value → Store → Response × Store
unfolding ensure_base_nft_minted activate_after_mint
activate_for_wallet env brand wallet selections s =
    let m = ensure_base_nft_minted env.mint brand wallet (with_user brand wallet s) in
    elim m.0 [
      | none ↦ (internal_error, m.1)
      | some r ↦ activate_after_mint env brand wallet selections r m.1
    ]

unfoldable pub handle_activate_traits : MeEnv → Option Auth → Value → Store → Response × Store
unfolding brand_id_of activate_for_wallet array_of get fields_of
handle_activate_traits env none body s = (failure 401 "Unauthorized", s)
handle_activate_traits env (some auth) body s = elim (non_empty auth.wallet_address) [
  | none ↦ (failure 400 "Missing wallet address", s)
  | some wallet ↦
      let brand = brand_id_of env.runtime body in
      if is_empty brand
      then (failure 400 "brandId required", s)
      else elim (array_of (get "selections" (fields_of body))) [
        | [] ↦ (failure 400 "No trait selections provided", s)
        | v ∷ vs ↦ elim (s.brands brand) [
          | none ↦ (failure 404 "Brand not found", s)
          | some _ ↦ activate_for_wallet env brand wallet (v ∷ vs) s
        ]
      ]
]
