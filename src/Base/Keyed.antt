-- ===== src/Base/Keyed.antt =====
-- A database table whose rows are unique by brand and wallet: a function from the key to the row.
use mathlib.Core.Path.{◌≡◌}
use mathlib.Core.Bool.{Bool, true, false, ◌&&◌}
use mathlib.Core.Option.{Option, none, some}
use Prim.Native.String.{String}
use native.Mathlib.Omega.{arith}
use text.Mathlib.Text.{◌==◌}
use text.Mathlib.TextEquality.{eq_iff}
use text.Mathlib.TextPositions.{eq_refl}
use dynamic_nft_krnl.Base.Tests.{if◌then◌else◌}

abbrev pub Table {ℓ} : Type ℓ → Type ℓ
Table V = String → String → Option V

-- Whether two keys name the same row.
abbrev pub same_key : String → String → String → String → Bool
same_key b w b' w' = b == b' && w == w'

pub same_key_refl : (b w : String) → same_key b w b w ≡ true
same_key_refl b w = ground (arith, eq_refl b, eq_refl w)

module _ {ℓ} {V : Type ℓ} where
  abbrev pub empty : Table V
  empty b w = none

  unfoldable pub put : String → String → V → Table V → Table V
  put b w v t b' w' = if same_key b w b' w' then some v else t b' w'

  -- prisma `upsert`: `update` of the row that is there, else the row `create`.
  unfoldable pub upsert : String → String → (V → V) → V → Table V → Table V
  unfolding put
  upsert b w update create t = put b w (elim (t b w) [ none ↦ create | some r ↦ update r ]) t

  pub put_self : (b w : String) (v : V) (t : Table V) → put b w v t b w ≡ some v
  unfolding put
  put_self b w v t = ground (arith, same_key_refl b w)

  pub put_other :
      (b w b' w' : String) (v : V) (t : Table V)
      → same_key b w b' w' ≡ false
      → put b w v t b' w' ≡ t b' w'
  unfolding put
  put_other b w b' w' v t e = ground arith

  pub same_key_lookup :
      (b w b' w' : String) (t : Table V) → same_key b w b' w' ≡ true → t b w ≡ t b' w'
  same_key_lookup b w b' w' t e = ground (arith, eq_iff b b', eq_iff w w')
