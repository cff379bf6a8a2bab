-- ===== src/Base/Text.antt =====
-- Text: trimming as `String.prototype.trim`, emptiness, and searching for a part.
use Prim.Native.Nat.{ℕ}
use Prim.Native.Char.{code}
use Prim.Native.String.{String, len, find}
use mathlib.Core.Path.{◌≡◌, refl, ap, ◌∙◌}
use mathlib.Core.Bool.{Bool, true, false, not, ◌&&◌, ◌||◌}
use mathlib.Core.Logic.{inl, inr}
use mathlib.Core.Option.{Option, none, some}
use dynamic_nft_krnl.Base.Tests.{Bool-cases, leb, ◌==◌, if◌then◌else◌}

-- The white space and line ends that `trim` removes.
unfoldable pub is_space : ℕ → Bool
is_space c =
    (leb 9 c && leb c 13)
    || c == 32
    || c == 160
    || c == 0x1680
    || (leb 0x2000 c && leb c 0x200a)
    || c == 0x2028
    || c == 0x2029
    || c == 0x202f
    || c == 0x205f
    || c == 0x3000
    || c == 0xfeff

abbrev pub is_empty : String → Bool
is_empty String.[] = true
is_empty (String.◌∷◌ c s) = false

trim_start : String → String
trim_start String.[] = String.[]
trim_start (String.◌∷◌ c s) =
    let rest = trim_start s in if is_space (code c) then rest else String.◌∷◌ c s

trim_end : String → String
trim_end String.[] = String.[]
trim_end (String.◌∷◌ c s) =
    let rest = trim_end s in
    if is_space (code c) && is_empty rest then String.[] else String.◌∷◌ c rest

unfoldable pub trim : String → String
unfolding trim_start trim_end is_space
trim s = trim_end (trim_start s)

-- Text that does not begin with white space.
starts_bare : String → Bool
unfolding is_space
starts_bare String.[] = true
starts_bare (String.◌∷◌ c s) = not (is_space (code c))

trim_start-bare : (s : String) → starts_bare (trim_start s) ≡ true
unfolding trim_start starts_bare
trim_start-bare String.[] = refl
trim_start-bare (String.◌∷◌ c s) = elim (Bool-cases (is_space (code c))) [
  | inl space ↦ rw space (trim_start-bare s)
  | inr other ↦ rw other (rw other refl)
]

bare-trim_start : (s : String) → starts_bare s ≡ true → trim_start s ≡ s
unfolding trim_start starts_bare
bare-trim_start String.[] h = refl
bare-trim_start (String.◌∷◌ c s) h = elim (Bool-cases (is_space (code c))) [
  | inl space ↦ absurd (ne (rw space at h))
  | inr other ↦ rw other refl
]
  where
    ne : false ≡ true → ⊥
    ne e = cc

trim_end-bare : (s : String) → starts_bare s ≡ true → starts_bare (trim_end s) ≡ true
unfolding trim_end starts_bare
trim_end-bare String.[] h = refl
trim_end-bare (String.◌∷◌ c s) h = elim (Bool-cases (is_space (code c) && is_empty (trim_end s))) [
  | inl gone ↦ rw gone refl
  | inr kept ↦ rw kept h
]

trim_end-twice : (s : String) → trim_end (trim_end s) ≡ trim_end s
unfolding trim_end
trim_end-twice String.[] = refl
trim_end-twice (String.◌∷◌ c s) = elim (Bool-cases (is_space (code c) && is_empty (trim_end s))) [
  | inl gone ↦ rw gone refl
  | inr kept ↦ rw kept (rw (trim_end-twice s, trim_end) (rw kept refl))
]

-- Trimming again changes nothing.
pub trim-trim : (s : String) → trim (trim s) ≡ trim s
unfolding trim
trim-trim s =
    ap trim_end
      (bare-trim_start (trim_end (trim_start s)) (trim_end-bare (trim_start s) (trim_start-bare s)))
    ∙ trim_end-twice (trim_start s)

-- `s.includes(part)`.
unfoldable pub includes : String → String → Bool
includes s part = leb (find s part) (len s)

-- What follows a text that begins with the prefix, where `same` compares characters.
unfoldable pub strip_prefix : (ℕ → ℕ → Bool) → String → String → Option String
strip_prefix same String.[] s = some s
strip_prefix same (String.◌∷◌ c p) String.[] = none
strip_prefix same (String.◌∷◌ c p) (String.◌∷◌ d s) =
    let rest = strip_prefix same p s in if same (code c) (code d) then rest else none

trims : trim "  a b\n" ≡ "a b"
unfolding trim
trims = refl

finds : includes "quest_completed" "complete" ≡ true
unfolding includes
finds = refl

misses : includes "approved" "complete" ≡ false
unfolding includes
misses = refl
