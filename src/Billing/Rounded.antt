-- ===== src/Billing/Rounded.antt =====
-- The units of an amount that is not whole: how far rounding takes them from it.
use native.Mathlib.Nat.{
  mul_left_comm, suc-mul, pow-suc, div-add-mod', mod-lt, pow-le-pow_right, one-le-pow,
  mul-le-mul_right,
}
use dynamic_nft_krnl.Base.{
  ◌≡◌, false, none-ne-some, ap, subst, sym, ◌∙◌, arith, ℕ, zero, suc, ◌+◌, ◌*◌, ◌/◌, ◌%◌, ◌^◌, ◌<◌,
  ◌≤◌, ◌⊎◌, inl, inr, none, some,
}
use dynamic_nft_krnl.Base.Int.{ℤ, pos, negsuc, ◌+ℤ◌, ◌*ℤ◌}
use dynamic_nft_krnl.Js.{Number, whole, frac, int, nan, pos_inf, neg_inf}
use dynamic_nft_krnl.Billing.Start.{is_too_large}
use dynamic_nft_krnl.Billing.Amount.{
  Decimal, add_decimal, round_away, safe-eq, atomic_units, bits, half_even, to_double, scale,
  at_scale, round, safe,
}

half_even-cases : (q r d : ℕ) → (half_even q r d ≡ q) ⊎ (half_even q r d ≡ suc q)
half_even-cases q r d = ground arith

half-lt : (a k : ℕ) → a < 2 ^ k * 2 → a / 2 < 2 ^ k
half-lt a k h = omega arith

-- A number below a power of two has no more bits than its exponent.
bits-le : (fuel k a : ℕ) → a < 2 ^ k → bits fuel a ≤ k
unfolding bits
bits-le zero k a h = omega arith
bits-le (suc fuel) zero a h = ground arith
bits-le (suc fuel) (suc k) a h =
    let half : a / 2 < 2 ^ k = half-lt a k (subst (λ (m : ℕ). a < m) (pow-suc 2 k) h) in
    let rest : bits fuel (a / 2) ≤ k = bits-le fuel k (a / 2) half in ground arith

twice : (u p : ℕ) → u * (2 * p) ≡ 2 * (u * p)
twice u p = mul_left_comm u 2 p

scaled-near :
    (q r d h : ℕ)
    → r < d
    → (h ≡ q) ⊎ (h ≡ suc q)
    → (h * d ≤ q * d + r + d) × (q * d + r ≤ h * d + d)
scaled-near q r d h small (inl e) = rw e (omega arith, omega arith)
scaled-near q r d h small (inr e) =
    rw e (rw (suc-mul q d) (omega arith), rw (suc-mul q d) (omega arith))

round-near :
    (p a d v r u : ℕ)
    → v ≤ a + d
    → a ≤ v + d
    → 2 * d ≤ p
    → u * (2 * p) + r ≡ 2 * v + p
    → r < 2 * p
    → (u * p ≤ a + p) × (a ≤ u * p + p)
round-near p a d v r u h g small e f =
    let f' : 2 * (u * p) + r ≡ 2 * v + p = sym (ap (λ x. x + r) (twice u p)) ∙ e in
    (omega arith, omega arith)

below_power : (p q n f : ℕ) → n < 100 → f < p → 100000000 * p < q → (n * p + suc f) * 1000000 < q
below_power p q n f small proper room =
    let most : n * p ≤ 99 * p = mul-le-mul_right p (omega arith) in omega arith

to_double-near : (a : ℕ) → 0 < scale a → (to_double a ≤ a + scale a) × (a ≤ to_double a + scale a)
unfolding to_double
to_double-near a positive =
    let d = scale a in
    let parts : a / d * d + a % d ≡ a = div-add-mod' a d in
    let near =
      scaled-near (a / d) (a % d) d (half_even (a / d) (a % d) d) (mod-lt a positive)
        (half_even-cases (a / d) (a % d) d) in
    subst (λ (b : ℕ). (at_scale d a ≤ b + d) × (b ≤ at_scale d a + d)) parts near

room : 100000000 * 2 ^ 1074 < 2 ^ 1101
room = omega arith

spare : 2 * 2 ^ 1048 ≤ 2 ^ 1074
spare = omega arith

scale-pos : (a : ℕ) → 0 < scale a
unfolding scale
scale-pos a = one-le-pow _ 2 (omega arith)

double-le : (a b c : ℕ) → a ≤ b → 2 * b ≤ c → 2 * a ≤ c
double-le a b c h g = omega arith

scale-le : (a : ℕ) → a < 2 ^ 1101 → 2 * scale a ≤ 2 ^ 1074
unfolding scale
scale-le a h =
    let few : bits 2200 a ≤ 1101 = bits-le 2200 1101 a h in
    let within : scale a ≤ 2 ^ 1048 = pow-le-pow_right (omega arith) {j = 1048} (omega arith) in
    double-le (scale a) (2 ^ 1048) (2 ^ 1074) within spare

round-div :
    (p a d v : ℕ)
    → v ≤ a + d
    → a ≤ v + d
    → 2 * d ≤ p
    → 0 < p
    → ((2 * v + p) / (2 * p) * p ≤ a + p) × (a ≤ (2 * v + p) / (2 * p) * p + p)
round-div p a d v h g small positive =
    round-near p a d v ((2 * v + p) % (2 * p)) ((2 * v + p) / (2 * p)) h g small
      (div-add-mod' (2 * v + p) (2 * p)) (mod-lt (2 * v + p) (omega arith))

-- For a fraction below 100, rounding to floating point and then to units moves it by a unit at most.
round-to_double-near :
    (n f : ℕ)
    → n < 100
    → f < 2 ^ 1074
    → (round (to_double ((n * 2 ^ 1074 + suc f) * 1000000)) * 2 ^ 1074
        ≤ (n * 2 ^ 1074 + suc f) * 1000000 + 2 ^ 1074)
      × ((n * 2 ^ 1074 + suc f) * 1000000
          ≤ round (to_double ((n * 2 ^ 1074 + suc f) * 1000000)) * 2 ^ 1074 + 2 ^ 1074)
round-to_double-near n f small proper =
    let a = (n * 2 ^ 1074 + suc f) * 1000000 in
    let near = to_double-near a (scale-pos a) in
    round-div (2 ^ 1074) a (scale a) (to_double a) near.0 near.1
      (scale-le a (below_power (2 ^ 1074) (2 ^ 1101) n f small proper room))
      (one-le-pow 1074 2 (omega arith))

-- The units are a million for each USDC of a whole amount, and differ from a million times another by
-- one at most.
abbrev pub IsNear : Number → ℕ → Type 0
IsNear (whole (int (pos k))) u = u ≡ k * 1000000
IsNear (whole (int (negsuc k))) u = ⊥
IsNear (whole nan) u = ⊥
IsNear (whole pos_inf) u = ⊥
IsNear (whole neg_inf) u = ⊥
IsNear (frac (pos n) f) u =
    (u * 2 ^ 1074 ≤ (n * 2 ^ 1074 + suc f) * 1000000 + 2 ^ 1074)
    × ((n * 2 ^ 1074 + suc f) * 1000000 ≤ u * 2 ^ 1074 + 2 ^ 1074)
IsNear (frac (negsuc n) f) u = ⊥

-- What a fraction exceeds its floor by is below one.
abbrev pub IsProper : Number → Type 0
IsProper (whole w) = Unit
IsProper (frac n f) = f < 2 ^ 1074

no-units : (u : ℕ) → none ≡ some u → ⊥
no-units u h = none-ne-some u h

near_lem :
    (n f u : ℕ)
    → n < 100
    → f < 2 ^ 1074
    → safe (round (to_double ((n * 2 ^ 1074 + suc f) * 1000000))) ≡ some u
    → IsNear (frac (pos n) f) u
near_lem n f u small proper h =
    subst (λ (v : ℕ). IsNear (frac (pos n) f) v) (sym (safe-eq _ u h))
      (round-to_double-near n f small proper)

below-100 : (n f : ℕ) → is_too_large (frac (pos n) f) ≡ false → n < 100
unfolding is_too_large
below-100 n f h = ground arith

pub atomic_units-IsNear :
    (amount : Number) (u : ℕ)
    → is_too_large amount ≡ false
    → IsProper amount
    → atomic_units amount ≡ some u
    → IsNear amount u
unfolding atomic_units
atomic_units-IsNear (whole (int (pos k))) u small proper h = safe-eq _ u h
atomic_units-IsNear (whole (int (negsuc k))) u small proper h = no-units u h
atomic_units-IsNear (whole nan) u small proper h = no-units u h
atomic_units-IsNear (whole pos_inf) u small proper h = no-units u h
atomic_units-IsNear (whole neg_inf) u small proper h = no-units u h
atomic_units-IsNear (frac (pos n) f) u small proper h =
    near_lem n f u (below-100 n f small) proper h
atomic_units-IsNear (frac (negsuc n) f) u small proper h = no-units u h

-- Credits to which a decimal is added are the nearest to the sum in places of four.
abbrev pub IsSum : ℕ → Decimal → ℤ → Type 0
IsSum b x c =
    let p = 10 ^ x.places in
    (n : ℕ) × (c ≡ pos n)
    × (2 * (n * p) ≤ 2 * (b * p + x.digits * 10000) + p)
    × (2 * (b * p + x.digits * 10000) ≤ 2 * (n * p) + p)

sum_pos : (b p m : ℕ) → pos b *ℤ pos p +ℤ pos m ≡ pos (b * p + m)
unfolding ◌+ℤ◌ ◌*ℤ◌
sum_pos b p m = ground arith

nearest :
    (a p u r : ℕ)
    → u * (2 * p) + r ≡ a * 2 + p
    → r < 2 * p
    → (2 * (u * p) ≤ 2 * a + p) × (2 * a ≤ 2 * (u * p) + p)
nearest a p u r e f =
    let g : 2 * (u * p) + r ≡ a * 2 + p = sym (ap (λ y. y + r) (twice u p)) ∙ e in
    (omega arith, omega arith)

twice_pos : (p : ℕ) → 1 ≤ p → 0 < 2 * p
twice_pos p h = omega arith

round_away-IsSum :
    (b : ℕ) (x : Decimal) (z : ℤ)
    → z ≡ pos (b * 10 ^ x.places + x.digits * 10000)
    → IsSum b x (round_away z (10 ^ x.places))
round_away-IsSum b x z e =
    let p = 10 ^ x.places in
    let a = b * p + x.digits * 10000 in
    let near =
      nearest a p ((a * 2 + p) / (2 * p)) ((a * 2 + p) % (2 * p)) (div-add-mod' (a * 2 + p) (2 * p))
        (mod-lt (a * 2 + p) (twice_pos p (one-le-pow x.places 10 (omega arith)))) in
    ((a * 2 + p) / (2 * p), ap (λ (y : ℤ). round_away y p) e, near.0, near.1)

pub add_decimal-IsSum : (b : ℕ) (x : Decimal) → IsSum b x (add_decimal (pos b) x)
unfolding add_decimal
add_decimal-IsSum b x = round_away-IsSum b x _ (sum_pos b (10 ^ x.places) (x.digits * 10000))
