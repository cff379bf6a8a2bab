-- ===== src/Rewards/Charge.antt =====
-- What an event can still cost, and a charge of it.
use text.Mathlib.Text.{◌==◌ as str_eq}
use text.Mathlib.TextPositions.{eq_refl}
use dynamic_nft_krnl.Base.{◌≡◌, refl, ◌∙◌, ap, Option, none, some, String, if◌then◌else◌}
use dynamic_nft_krnl.Base.Int.{ℤ, pos, pos_part, neg_part, ◌+ℤ◌, ◌-ℤ◌, int_laws}
use dynamic_nft_krnl.Store.{Store, Brand}
use dynamic_nft_krnl.Mint.{non_empty}
use dynamic_nft_krnl.Rewards.{set_credits, EventState}

abbrev pub credits_in : Option Brand → ℤ
credits_in none = pos 0
credits_in (some b) = b.sponsorship_credits

-- The credits of the event's brand.
abbrev pub credits_of : EventState → ℤ
credits_of s = credits_in (s.store.brands s.event.brand_id)

abbrev pub owed_for_mint : Option String → ℤ
owed_for_mint none = pos 10000
owed_for_mint (some token) = pos 0

abbrev pub owed_for_reward : Option String → ℤ
owed_for_reward none = pos 5000
owed_for_reward (some run) = pos 0

-- What the event can still cost: a mint, while the wallet has no membership, and a reward, while the
-- event has no workflow.
abbrev pub owed : EventState → ℤ
owed s =
    owed_for_mint (s.store.memberships s.event.brand_id s.event.wallet)
    +ℤ owed_for_reward (non_empty s.event.workflow_run_id)

-- From one state to another the credits fall by exactly what is no longer owed.
pub record IsPaid (s r : EventState) : Type 0 where
  pub same_brand : r.event.brand_id ≡ s.event.brand_id
  pub same_wallet : r.event.wallet ≡ s.event.wallet
  pub balanced : credits_of r +ℤ owed s ≡ credits_of s +ℤ owed r

pub IsPaid-refl : (s : EventState) → IsPaid s s
IsPaid-refl s = record { same_brand = refl; same_wallet = refl; balanced = refl }

pub IsPaid-trans : (s r q : EventState) → IsPaid s r → IsPaid r q → IsPaid s q
IsPaid-trans s r q a b = record {
  same_brand = b.same_brand ∙ a.same_brand;
  same_wallet = b.same_wallet ∙ a.same_wallet;
  balanced =
      balanced_trans (credits_of s) (credits_of r) (credits_of q) (owed s) (owed r) (owed q)
        a.balanced b.balanced;
}
  where
    balanced_trans :
        (c c' c'' o o' o'' : ℤ) → c' +ℤ o ≡ c +ℤ o' → c'' +ℤ o' ≡ c' +ℤ o'' → c'' +ℤ o ≡ c +ℤ o''
    balanced_trans c c' c'' o o' o'' h k =
        omega (int_laws, ap pos_part h, ap neg_part h, ap pos_part k, ap neg_part k)

-- The brand's row after its credits were written.
unfoldable pub charged : String → ℤ → Brand → Store → Store
charged id x b t = record t {
  brands = λ i. if str_eq id i then some (record b { sponsorship_credits = x }) else t.brands i;
}

pub set_credits-charged :
    (id : String) (x : ℤ) (b : Brand) (t : Store)
    → t.brands id ≡ some b
    → set_credits id x t ≡ some (charged id x b t)
unfolding set_credits charged
set_credits-charged id x b t e = rw (e, set_credits) refl

pub charged-brand :
    (id : String) (x : ℤ) (b : Brand) (t : Store)
    → (charged id x b t).brands id ≡ some (record b { sponsorship_credits = x })
unfolding charged
charged-brand id x b t = rw (eq_refl id) refl

pub charged-memberships :
    (id : String) (x : ℤ) (b : Brand) (t : Store) → (charged id x b t).memberships ≡ t.memberships
unfolding charged
charged-memberships id x b t = refl

-- A charge of what was owed and is no longer.
pub balanced_charge :
    (c m w m' w' : ℤ) (x : ℤ) → m +ℤ w ≡ (m' +ℤ w') +ℤ x → (c -ℤ x) +ℤ (m +ℤ w) ≡ c +ℤ (m' +ℤ w')
balanced_charge c m w m' w' x h = omega (int_laws, ap pos_part h, ap neg_part h)

pub add_zero : (m x : ℤ) → m +ℤ x ≡ (m +ℤ pos 0) +ℤ x
add_zero m x = omega int_laws

pub zero_add : (w x : ℤ) → x +ℤ w ≡ (pos 0 +ℤ w) +ℤ x
zero_add w x = omega int_laws
