-- ===== src/Brands/Reward/Effective.antt =====
-- The rule that the webhook reads after a quest's reward was set.
use dynamic_nft_krnl.Base.{
  ◌≡◌, ◌⊎◌, Bool-cases, put, true, refl, sym, ◌∙◌, ap, Bool, false, Option, none, some,
  Option-cases, inl, inr, String, put_self, put_other, same_key,
}
use dynamic_nft_krnl.Base.Int.{ℤ}
use dynamic_nft_krnl.Js.{
  text_of, or_value, Runtime, Number, whole, int, Value, str, Fields, get, fields_of,
}
use dynamic_nft_krnl.Store.{Store, BrandRewardRule}
use dynamic_nft_krnl.Economy.{
  RewardXpMode, zealy, override, nothing, EffectiveRewardRule, normalize_xp_mode,
  resolve_xp_override,
}
use dynamic_nft_krnl.Economy.Credits.{mode_name, normalize_xp_mode_iff}
use dynamic_nft_krnl.Me.{Auth}
use dynamic_nft_krnl.Zealy.Reward.{get_effective_reward_rule}
use dynamic_nft_krnl.Brands.{BrandsEnv, Answer, refused, saved, as_owner, as_owner-cases}
use dynamic_nft_krnl.Brands.Reward.{
  is_asset_pack, write_reward_rule, enabled_or_true, loot_keys_of, rule_with, write_rule, save_rule,
  check_rule, set_reward_rule,
}

-- The names of the modes are in upper case.
pub record IsUpper (rt : Runtime) : Type 0 where
  pub upper : (m : RewardXpMode) → rt.to_upper (mode_name m) ≡ mode_name m

abbrev number : Option ℤ → Option Number
number none = none
number (some n) = some (whole (int n))

-- What the request asks for.
unfoldable pub asked_rule : Runtime → Fields → RewardXpMode → ℤ → EffectiveRewardRule
unfolding get resolve_xp_override
asked_rule rt fs mode keys = record {
  enabled = enabled_or_true (get "enabled" fs);
  loot_keys_delta = whole (int keys);
  xp_mode = mode;
  xp_override = number (resolve_xp_override rt mode (get "xpOverride" fs));
}

-- Whether, from one state to the next, the rules of other quests stay.
abbrev KeepsOthers : Runtime → String → String → Store → Store → Type 0
KeepsOthers rt brand quest s s' =
    (b q : String)
    → same_key brand quest b q ≡ false
    → get_effective_reward_rule rt b q s' ≡ get_effective_reward_rule rt b q s

-- What the webhook reads after the rule was written: what the request asked for, for this quest, and
-- for other quests what it read before.
abbrev IsRead : BrandsEnv → Fields → String → String → Store → Store → Type 0
IsRead env fs brand quest s s' =
    ((mode : RewardXpMode) × (keys : ℤ) × (normalize_xp_mode env.runtime (get "xpMode" fs)
        ≡ some mode)
      × (loot_keys_of env.runtime (get "lootKeysDelta" fs) ≡ some keys)
      × (get_effective_reward_rule env.runtime brand quest s'
          ≡ asked_rule env.runtime fs mode keys))
    × KeepsOthers env.runtime brand quest s s'

-- A request that is refused changes nothing, or it names an asset pack that the database does not
-- take and has changed the rule all the same. After one that is saved the rule is changed.
abbrev pub IsEffective :
    BrandsEnv → Fields → String → String → Store → Answer BrandRewardRule × Store → Type 0
IsEffective env fs brand quest s (refused code m, s') =
    (s' ≡ s)
    ⊎ ((is_asset_pack env (get "assetPackId" fs) ≡ false)
        × (code ≡ 500)
        × (record s' { reward_rules = s.reward_rules } ≡ s)
        × IsRead env fs brand quest s s')
IsEffective env fs brand quest s (saved rule, s') =
    (is_asset_pack env (get "assetPackId" fs) ≡ true) × IsRead env fs brand quest s s'

module _ (rt : Runtime) (up : IsUpper rt) (brand quest : String) (s : Store) where
  read-name : (m : RewardXpMode) → normalize_xp_mode rt (str (mode_name m)) ≡ some m
  unfolding text_of or_value
  read-name zealy = (normalize_xp_mode_iff rt (str "ZEALY") zealy).1 (up.upper zealy)
  read-name override = (normalize_xp_mode_iff rt (str "OVERRIDE") override).1 (up.upper override)
  read-name nothing = (normalize_xp_mode_iff rt (str "NONE") nothing).1 (up.upper nothing)

  read-write :
      (enabled : Bool) (keys : ℤ) (mode : RewardXpMode) (xp : Option ℤ) (t : Store)
      → t.reward_rules ≡ put brand quest (rule_with enabled keys mode xp) s.reward_rules
      → get_effective_reward_rule rt brand quest t ≡ record {
        enabled = enabled;
        loot_keys_delta = whole (int keys);
        xp_mode = mode;
        xp_override = number xp;
      }
  unfolding get_effective_reward_rule
  read-write enabled keys mode xp t wrote =
      rw
        (
          ap (λ f. f brand quest) wrote
              ∙ put_self brand quest (rule_with enabled keys mode xp) s.reward_rules,
          get_effective_reward_rule,
        )
        (rw (read-name mode) refl)

  asked :
      (fs : Fields) (keys : ℤ) (mode : RewardXpMode) (xp : Option ℤ) (t : Store)
      → resolve_xp_override rt mode (get "xpOverride" fs) ≡ xp
      → t.reward_rules
        ≡ put brand quest
            (rule_with (enabled_or_true (get "enabled" fs)) keys mode xp)
            s.reward_rules
      → get_effective_reward_rule rt brand quest t ≡ asked_rule rt fs mode keys
  unfolding asked_rule
  asked fs keys mode xp t x wrote =
      read-write (enabled_or_true (get "enabled" fs)) keys mode xp t wrote
      ∙ ap (λ (y : Option ℤ). record (asked_rule rt fs mode keys) { xp_override = number y })
          (sym x)

  get_effective_reward_rule-eq :
      (b q : String) (s s' : Store)
      → s'.reward_rules b q ≡ s.reward_rules b q
      → s'.quest_reward_rules b q ≡ s.quest_reward_rules b q
      → get_effective_reward_rule rt b q s' ≡ get_effective_reward_rule rt b q s
  unfolding get_effective_reward_rule
  get_effective_reward_rule-eq b q s s' e f = elim (Option-cases (s.reward_rules b q)) [
    | inr (r, g) ↦ rw (e, get_effective_reward_rule) (rw g (rw (g, get_effective_reward_rule) refl))
    | inl g ↦
        rw (e, get_effective_reward_rule)
          (rw g (rw (f, get_effective_reward_rule) (rw (g, get_effective_reward_rule) refl)))
  ]

module _ (env : BrandsEnv) (up : IsUpper env.runtime) (brand quest : String) (s : Store) where
  write-KeepsOthers :
      (rule : BrandRewardRule)
      → KeepsOthers env.runtime brand quest s (write_reward_rule brand quest rule s)
  unfolding write_reward_rule
  write-KeepsOthers rule b q other =
      get_effective_reward_rule-eq env.runtime up brand quest s b q s
        (write_reward_rule brand quest rule s) (put_other brand quest b q rule s.reward_rules other)
        refl

  write-IsEffective :
      (fs : Fields) (keys : ℤ) (mode : RewardXpMode) (xp : Option ℤ)
      → normalize_xp_mode env.runtime (get "xpMode" fs) ≡ some mode
      → loot_keys_of env.runtime (get "lootKeysDelta" fs) ≡ some keys
      → resolve_xp_override env.runtime mode (get "xpOverride" fs) ≡ xp
      → IsEffective env fs brand quest s (
          write_rule env
            (get "assetPackId" fs)
            brand
            quest
            (rule_with (enabled_or_true (get "enabled" fs)) keys mode xp)
            s)
  unfolding write_rule write_reward_rule
  write-IsEffective fs keys mode xp m k x =
      elim (Bool-cases (is_asset_pack env (get "assetPackId" fs))) [
        | inr foreign ↦ rw foreign (
            inr (
              foreign,
              refl,
              refl,
              (
                (mode, keys, m, k, asked env.runtime up brand quest s fs keys mode xp _ x refl),
                write-KeepsOthers _,
              ),
            ))
        | inl own ↦ rw own (
          own,
          (
            (mode, keys, m, k, asked env.runtime up brand quest s fs keys mode xp _ x refl),
            λ b q other.
                get_effective_reward_rule-eq env.runtime up brand quest s b q s _
                  (put_other brand quest b q _ s.reward_rules other)
                  (put_other brand quest b q _ s.quest_reward_rules other),
          ),
        )
      ]

  save-IsEffective :
      (fs : Fields) (keys : ℤ) (mode : RewardXpMode) (xp : Option ℤ)
      → normalize_xp_mode env.runtime (get "xpMode" fs) ≡ some mode
      → loot_keys_of env.runtime (get "lootKeysDelta" fs) ≡ some keys
      → resolve_xp_override env.runtime mode (get "xpOverride" fs) ≡ xp
      → IsEffective env fs brand quest s (
          save_rule env
            (get "assetPackId" fs)
            (enabled_or_true (get "enabled" fs))
            keys
            mode
            xp
            brand
            quest
            s)
  unfolding save_rule
  save-IsEffective fs keys override none m k x = inl refl
  save-IsEffective fs keys override (some n) m k x =
      write-IsEffective fs keys override (some n) m k x
  save-IsEffective fs keys zealy xp m k x = write-IsEffective fs keys zealy xp m k x
  save-IsEffective fs keys nothing xp m k x = write-IsEffective fs keys nothing xp m k x

  check-IsEffective :
      (fs : Fields) → IsEffective env fs brand quest s (check_rule env fs brand quest s)
  unfolding check_rule
  check-IsEffective fs = elim (Option-cases (loot_keys_of env.runtime (get "lootKeysDelta" fs))) [
    | inl ill ↦ rw (ill, IsEffective, check_rule) (inl refl)
    | inr (keys, k) ↦ elim (Option-cases (normalize_xp_mode env.runtime (get "xpMode" fs))) [
      | inl ill ↦ rw (k, IsEffective, check_rule) (rw (ill, IsEffective) (inl refl))
      | inr (mode, m) ↦
          rw (k, check_rule)
            (rw (m, check_rule)
              (save-IsEffective fs keys mode
                (resolve_xp_override env.runtime mode (get "xpOverride" fs)) m k refl))
    ]
  ]

-- A request to set the reward of a quest that is refused changes nothing, unless it is refused with
-- the status 500, names an asset pack that the database does not take, and changes the rule alone.
-- After this one, and after one that is saved, the webhook reads for this quest what the request
-- asked for, its mode, its keys and its experience, and for other quests what it read before. The
-- names of the modes must be in upper case for the runtime.
pub set_reward_rule-IsEffective :
    (env : BrandsEnv) (auth : Auth) (brand quest : String) (body : Value) (s : Store)
    → IsUpper env.runtime
    → IsEffective env (fields_of body) brand quest s (set_reward_rule env auth brand quest body s)
unfolding set_reward_rule as_owner
set_reward_rule-IsEffective env auth brand quest body s up =
    as_owner-cases (IsEffective env (fields_of body) brand quest s) env auth brand s _
      (λ code m. inl refl) (quest_found (Option-cases (s.zealy_quests brand quest)))
  where
    quest_found :
        (s.zealy_quests brand quest ≡ none)
          ⊎ ((q : Option ℤ) × (s.zealy_quests brand quest ≡ some q))
        → IsEffective env (fields_of body) brand quest s (elim (s.zealy_quests brand quest) [
          | none ↦ (refused 404 "Quest not found", s)
          | some q ↦ check_rule env (fields_of body) brand quest s
        ])
    quest_found (inl unknown) = rw (unknown, IsEffective) (inl refl)
    quest_found (inr (q, known)) =
        rw known (check-IsEffective env up brand quest s (fields_of body))
