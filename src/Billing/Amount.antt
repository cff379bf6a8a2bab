-- ===== src/Billing/Amount.antt =====
-- The amount of a payment in units of USDC and in credits: buildPaymentRequirements and the start
-- of a payment in apps/api/src/routes/brands.ts. A unit is a millionth, a credit's unit 0.0001.
use dynamic_nft_krnl.Base.{
  ◌≡◌, ap, ◌∙◌, arith, ℕ, zero, suc, ◌+◌, ◌-◌, ◌*◌, ◌/◌, ◌%◌, ◌^◌, ◌==◌, ◌&&◌, ltb, Option, none,
  some, if◌then◌else◌,
}
use dynamic_nft_krnl.Base.Int.{ℤ, pos, negsuc, ◌+ℤ◌, ◌*ℤ◌, sub_ℕ}
use dynamic_nft_krnl.Js.{Number, whole, frac, int, nan, pos_inf, neg_inf}

-- The digits of a decimal, of which so many stand behind the point.
pub record Decimal : Type 0 where
  pub digits : ℕ
  pub places : ℕ

-- How many bits a number has, where the fuel is no less.
unfoldable pub bits : ℕ → ℕ → ℕ
bits zero a = 0
bits (suc fuel) a = let rest = bits fuel (a / 2) in if a == 0 then 0 else suc rest

abbrev pub half_even : ℕ → ℕ → ℕ → ℕ
half_even q r d =
    if ltb (2 * r) d then q else if ltb d (2 * r) then suc q else if q % 2 == 0 then q else suc q

-- What the last of the first 53 bits of a number stands for.
unfoldable pub scale : ℕ → ℕ
scale a = 2 ^ (bits 2200 a - 53)

abbrev pub at_scale : ℕ → ℕ → ℕ
at_scale d a = half_even (a / d) (a % d) d * d

-- A number of 2 ^ -1074 as floating point keeps it: in 53 bits, the nearest, a tie to the even one.
unfoldable pub to_double : ℕ → ℕ
to_double a = at_scale (scale a) a

-- `Math.round` of a number of 2 ^ -1074.
abbrev pub round : ℕ → ℕ
round a = (2 * a + 2 ^ 1074) / (2 * 2 ^ 1074)

-- A safe integer above zero.
abbrev pub safe : ℕ → Option ℕ
safe u = if ltb 0 u && ltb u (2 ^ 53) then some u else none

-- `Math.round(amount * 10 ** 6)`, where it is a safe integer above zero.
unfoldable pub atomic_units : Number → Option ℕ
atomic_units (whole (int (pos n))) = safe (n * 1000000)
atomic_units (whole (int (negsuc n))) = none
atomic_units (whole nan) = none
atomic_units (whole pos_inf) = none
atomic_units (whole neg_inf) = none
atomic_units (frac (pos n) f) = safe (round (to_double ((n * 2 ^ 1074 + suc f) * 1000000)))
atomic_units (frac (negsuc n) f) = none

-- A quotient, rounded as the database rounds a decimal: a tie away from zero.
abbrev pub round_away : ℤ → ℕ → ℤ
round_away (pos n) d = pos ((n * 2 + d) / (2 * d))
round_away (negsuc n) d = sub_ℕ 0 ((suc n * 2 + d) / (2 * d))

-- Credits and a decimal amount, in a column of four places.
unfoldable pub add_decimal : ℤ → Decimal → ℤ
unfolding ◌+ℤ◌ ◌*ℤ◌
add_decimal credits x =
    round_away (credits *ℤ pos (10 ^ x.places) +ℤ pos (x.digits * 10000)) (10 ^ x.places)

double_half : (n : ℕ) → (n * 2 + 1) / (2 * 1) ≡ n
double_half n = omega arith

zero_less : (n : ℕ) → sub_ℕ 0 (suc n) ≡ negsuc n
zero_less n = ground arith

round_away-one : (z : ℤ) → round_away z 1 ≡ z
round_away-one (pos n) = ap pos (double_half n)
round_away-one (negsuc n) = ap (λ m. sub_ℕ 0 m) (double_half (suc n)) ∙ zero_less n

times_one : (c : ℤ) (m : ℕ) → c *ℤ pos 1 +ℤ pos m ≡ c +ℤ pos m
unfolding ◌+ℤ◌ ◌*ℤ◌
times_one (pos n) m = ground arith
times_one (negsuc n) m = ground arith

-- A whole amount is added as it is.
pub add_decimal-whole :
    (c : ℤ) (k : ℕ) → add_decimal c (record { digits = k; places = 0 }) ≡ c +ℤ pos (k * 10000)
unfolding add_decimal
add_decimal-whole c k = round_away-one _ ∙ times_one c (k * 10000)

pub safe-eq : (n u : ℕ) → safe n ≡ some u → u ≡ n
safe-eq n u h = ground arith
