-- ===== src/Assets/Whole/Contract.antt =====
-- A contract keeps it so that the rows that show an image find it.
use dynamic_nft_krnl.Base.{
  ◌≡◌, refl, sym, subst, Bool, not, ◌||◌, Option, none, some, String, Bool-cases, Option-cases, inl,
  inr, none-ne-some, some_injective,
}
use dynamic_nft_krnl.Js.{Value, Fields, truthy, get, fields_of, number_of}
use dynamic_nft_krnl.Me.{Auth}
use dynamic_nft_krnl.Brands.{Answer}
use dynamic_nft_krnl.Base.Int.{ℤ}
use dynamic_nft_krnl.Assets.{
  AssetPack, ContractConfig, Assets, AssetsEnv, find_pack, for_owner, for_owner-cases,
}
use dynamic_nft_krnl.Assets.Whole.{IsWhole, set_at-cases}
use dynamic_nft_krnl.Assets.Contract.{
  unfit, active, choose_pack, Choice, Chosen, unchanged, none_active, wrong_type, chosen,
  contract_row, write_contract, as_integer, is_missing, choice_of, set_checked_contract,
  set_contract,
}

-- What is chosen for the active pack is a pack of the brand.
abbrev IsFit : String → Assets → Chosen → Type 0
IsFit brand s (unfit code m) = Unit
IsFit brand s (active choice) =
    (p : String) → choice ≡ some p → (row : AssetPack) × (find_pack brand p s ≡ some row)

choose_pack-IsFit :
    (brand : String) (choice : Choice) (s : Assets)
    → IsWhole s
    → IsFit brand s (choose_pack brand choice s)
unfolding choose_pack
choose_pack-IsFit brand none_active s w = λ p e. absurd (none-ne-some p e)
choose_pack-IsFit brand wrong_type s w = tt
choose_pack-IsFit brand (chosen p) s w = elim (Option-cases (find_pack brand p s)) [
  | inl free ↦ rw (free, choose_pack) tt
  | inr (row, found) ↦
      rw (found, choose_pack)
        (λ q e. (row, subst (λ i. find_pack brand i s ≡ some row) (some_injective p q e) found))
]
choose_pack-IsFit brand unchanged s w = before (s.nft_configs brand) refl
  where
    before :
        (o : Option ContractConfig)
        → s.nft_configs brand ≡ o
        → (p : String) → elim o [ none ↦ none | some c ↦ c.active_asset_pack_id ] ≡ some p
        → (row : AssetPack) × (find_pack brand p s ≡ some row)
    before none e p h = absurd (none-ne-some p h)
    before (some c) e p h = w.actives brand c p e h

write_contract-IsWhole :
    (brand : String) (address rpc : Option String) (chain : ℤ) (pack : Chosen) (s : Assets)
    → IsFit brand s pack
    → IsWhole s
    → IsWhole (write_contract brand address chain rpc pack s).1
unfolding write_contract find_pack
write_contract-IsWhole brand none none chain (unfit code m) s h w = w
write_contract-IsWhole brand none none chain (active p) s h w = w
write_contract-IsWhole brand none (some r) chain (unfit code m) s h w = w
write_contract-IsWhole brand none (some r) chain (active p) s h w = w
write_contract-IsWhole brand (some a) none chain (unfit code m) s h w = w
write_contract-IsWhole brand (some a) none chain (active p) s h w = w
write_contract-IsWhole brand (some a) (some r) chain (unfit code m) s h w = w
write_contract-IsWhole brand (some a) (some r) chain (active pack) s h w = record {
  stored = w.stored;
  bases = w.bases;
  mapped = w.mapped;
  actives = λ b c p e f.
      elim (set_at-cases brand (contract_row a chain r pack) s.nft_configs b c e) [
        | inr old ↦ w.actives b c p old f
        | inl (of_brand, new) ↦
            subst (λ i. (row : AssetPack) × (find_pack i p s ≡ some row)) of_brand
              (h p (subst (λ x. x.active_asset_pack_id ≡ some p) (sym new) f))
      ];
}

module _ (env : AssetsEnv) (s : Assets) (w : IsWhole s) where
  pub owned :
      {A : Type 0} (message : String) (auth : Auth) (brand : String) (next : Answer A × Assets)
      → IsWhole next.1
      → IsWhole (for_owner env message auth brand s next).1
  owned message auth brand next h =
      for_owner-cases (λ r. IsWhole r.1) env message auth brand s next (λ code m. w) (λ b e own. h)

  set_checked_contract-IsWhole :
      (auth : Auth) (brand : String) (fs : Fields) (chain : Option ℤ)
      → IsWhole (set_checked_contract env auth brand fs chain s).1
  unfolding set_checked_contract
  set_checked_contract-IsWhole auth brand fs none = w
  set_checked_contract-IsWhole auth brand fs (some chain) =
      let choice = choice_of (get "activeAssetPackId" fs) in
      owned "Forbidden" auth brand _ (
        write_contract-IsWhole brand _ _ chain (choose_pack brand choice s) s
          (choose_pack-IsFit brand choice s w) w)

  pub set_contract-IsWhole :
      (auth : Auth) (brand : String) (body : Value) → IsWhole (set_contract env auth brand body s).1
  unfolding set_contract
  set_contract-IsWhole auth brand body = elim (Bool-cases (lacking)) [
    | inl lacks ↦ rw (lacks, set_contract) w
    | inr full ↦
        rw (full, set_contract)
          (set_checked_contract-IsWhole auth brand fs
            (as_integer (number_of env.runtime (get "chainId" fs))))
  ]
    where
      fs : Fields
      fs = fields_of body

      lacking : Bool
      lacking =
          not (truthy (get "contractAddress" fs))
          || is_missing (get "chainId" fs)
          || not (truthy (get "rpcUrl" fs))
