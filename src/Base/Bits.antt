-- ===== src/Base/Bits.antt =====
-- The binary digits of a number, and what the bit operations do to each of them.
use Prim.Native.Nat.{
  ℕ, zero, suc, ◌+◌, ◌-◌, ◌*◌, ◌/◌, ◌%◌, ◌^◌, ◌≤◌, ◌<◌, bit_and, bit_or, min, max, digits, bitwise,
  bit_and-bitwise, bit_or-bitwise,
}
use mathlib.Core.Path.{◌≡◌, refl, ap, sym, ◌∙◌}
use mathlib.Core.Logic.{inl, inr}
use mathlib.Core.Bool.{Bool, false, ◌||◌, ◌&&◌}
use native.Mathlib.Nat.{
  le_refl, pow-suc, div-add-mod', mod-lt, mod-eq_of_lt, mul-add-mod_self_right,
}
use native.Mathlib.Omega.{arith}
use loot_of_legends_public.Base.Tests.{Bool-cases, ◌==◌, leb, ltb, if◌then◌else◌}

-- One unit of fuel beyond the size of the first number changes nothing in `digits`.
spare_fuel :
    (one : ℕ → ℕ) (join : ℕ → ℕ → ℕ) (fuel x y : ℕ)
    → x ≤ fuel
    → digits one join (suc fuel) x y ≡ digits one join fuel x y
spare_fuel one join zero zero y h = refl
spare_fuel one join (suc fuel) zero y h = refl
spare_fuel one join zero (suc x) y h = absurd (omega arith)
spare_fuel one join (suc fuel) (suc x) y h =
    let rest = spare_fuel one join fuel (suc x / 2) (y / 2) (omega arith) in rw rest

-- So any fuel from that size on gives what the exact fuel gives.
exact_fuel :
    (one : ℕ → ℕ) (join : ℕ → ℕ → ℕ) (fuel x y : ℕ)
    → x ≤ fuel
    → digits one join fuel x y ≡ bitwise one join x y
exact_fuel one join zero x y h = let none_left : x ≡ 0 = omega arith in rw none_left
exact_fuel one join (suc fuel) x y h = elim (Bool-cases (leb x fuel)) [
  | inl e ↦
      let k : x ≤ fuel = ground arith in
      spare_fuel one join fuel x y k ∙ exact_fuel one join fuel x y k
  | inr e ↦ let all_used : x ≡ suc fuel = ground arith in rw all_used
]

or_step : (a b : ℕ) → bit_or a b ≡ bit_or (a / 2) (b / 2) * 2 + max (a % 2) (b % 2)
or_step zero b = omega (arith, bit_or-bitwise 0 b, bit_or-bitwise 0 (b / 2))
or_step (suc a) b =
    let half = exact_fuel (λ y. y) max a (suc a / 2) (b / 2) (omega arith) in
    omega (arith, half, bit_or-bitwise (suc a) b, bit_or-bitwise (suc a / 2) (b / 2))

and_step : (a b : ℕ) → bit_and a b ≡ bit_and (a / 2) (b / 2) * 2 + min (a % 2) (b % 2)
and_step zero b = omega (arith, bit_and-bitwise 0 b, bit_and-bitwise 0 (b / 2))
and_step (suc a) b =
    let half = exact_fuel (λ _. 0) min a (suc a / 2) (b / 2) (omega arith) in
    omega (arith, half, bit_and-bitwise (suc a) b, bit_and-bitwise (suc a / 2) (b / 2))

zero-bit_or : (b : ℕ) → bit_or 0 b ≡ b
zero-bit_or b = bit_or-bitwise 0 b

-- Digit `i` of `x`, counted from the lowest.
pub bit : ℕ → ℕ → Bool
bit x zero = x % 2 == 1
bit x (suc i) = bit (x / 2) i

pub bit-zero : (i : ℕ) → bit 0 i ≡ false
unfolding bit
bit-zero zero = refl
bit-zero (suc i) = bit-zero i

pow_half : (i : ℕ) → 2 ^ suc i / 2 ≡ 2 ^ i
pow_half i = omega (arith, pow-suc 2 i)

pow_even : (i : ℕ) → 2 ^ suc i % 2 ≡ 0
pow_even i = omega (arith, pow-suc 2 i)

and_zero : (n x : ℕ) → x ≤ n → bit_and x 0 ≡ 0
and_zero n zero h = bit_and-bitwise 0 0
and_zero zero (suc x) h = absurd (omega arith)
and_zero (suc n) (suc x) h = omega (arith, and_step (suc x) 0, and_zero n (suc x / 2) (omega arith))

or_zero : (n x : ℕ) → x ≤ n → bit_or x 0 ≡ x
or_zero n zero h = zero-bit_or 0
or_zero zero (suc x) h = absurd (omega arith)
or_zero (suc n) (suc x) h = omega (arith, or_step (suc x) 0, or_zero n (suc x / 2) (omega arith))

and_pow_step : (x i : ℕ) → bit_and x (2 ^ suc i) ≡ bit_and (x / 2) (2 ^ i) * 2
and_pow_step x i = rw (and_step x (2 ^ suc i), pow_half i, pow_even i) (omega arith)

or_pow_step : (x i : ℕ) → bit_or x (2 ^ suc i) ≡ bit_or (x / 2) (2 ^ i) * 2 + x % 2
or_pow_step x i = rw (or_step x (2 ^ suc i), pow_half i, pow_even i) (omega arith)

or_one_step : (x : ℕ) → bit_or x 1 ≡ x / 2 * 2 + 1
or_one_step x = omega (arith, or_step x 1, or_zero (x / 2) (x / 2) (le_refl _))

and_one_step : (x : ℕ) → bit_and x 1 ≡ x % 2
and_one_step x = omega (arith, and_step x 1, and_zero (x / 2) (x / 2) (le_refl _))

pub bit_and-pow : (x i : ℕ) → bit_and x (2 ^ i) ≡ (if bit x i then 2 ^ i else 0)
unfolding bit
bit_and-pow x zero = ground (arith, and_one_step x)
bit_and-pow x (suc i) = ground (arith, and_pow_step x i, pow-suc 2 i, bit_and-pow (x / 2) i)

pub bit-bit_or_pow : (x i j : ℕ) → bit (bit_or x (2 ^ i)) j ≡ (i == j || bit x j)
unfolding bit
bit-bit_or_pow x zero zero = ground (arith, or_one_step x)
bit-bit_or_pow x zero (suc j) =
    let e : bit_or x 1 / 2 ≡ x / 2 = omega (arith, or_one_step x) in
    ground (arith, ap (λ t. bit t j) e)
bit-bit_or_pow x (suc i) zero = ground (arith, or_pow_step x i)
bit-bit_or_pow x (suc i) (suc j) =
    let e : bit_or x (2 ^ suc i) / 2 ≡ bit_or (x / 2) (2 ^ i) = omega (arith, or_pow_step x i) in
    ground (arith, ap (λ t. bit t j) e, bit-bit_or_pow (x / 2) i j)

pub bit-mul_pow : (x k j : ℕ) → bit (x * 2 ^ k) j ≡ (leb k j && bit x (j - k))
unfolding bit
bit-mul_pow x zero j =
    let e : x * 1 ≡ x = omega arith in let f : j - 0 ≡ j = omega arith in rw (e, f) (ground arith)
bit-mul_pow x (suc k) zero =
    let e : x * 2 ^ suc k % 2 ≡ 0 = omega (arith, ap (λ t. x * t) (pow-suc 2 k)) in
    ground (arith, e)
bit-mul_pow x (suc k) (suc j) =
    let e : x * 2 ^ suc k / 2 ≡ x * 2 ^ k = omega (arith, ap (λ t. x * t) (pow-suc 2 k)) in
    let f : suc j - suc k ≡ j - k = omega arith in rw (e, f) (ground (arith, bit-mul_pow x k j))

mod_double : (x m : ℕ) → 0 < m → (x % (m * 2) / 2 ≡ x / 2 % m) × (x % (m * 2) % 2 ≡ x % 2)
mod_double x m h = (rw halved (sym rest), omega (arith, whole))
  where
    whole : x / (m * 2) * m * 2 + x % (m * 2) ≡ x
    whole = omega (arith, div-add-mod' x (m * 2))

    halved : x / 2 ≡ x / (m * 2) * m + x % (m * 2) / 2
    halved = omega (arith, whole)

    small : x % (m * 2) / 2 < m
    small = omega (arith, mod-lt x {m = m * 2} (omega arith))

    rest : (x / (m * 2) * m + x % (m * 2) / 2) % m ≡ x % (m * 2) / 2
    rest = mul-add-mod_self_right _ m _ ∙ mod-eq_of_lt small

pub pow-pos : (n : ℕ) → 0 < 2 ^ n
pow-pos zero = omega arith
pow-pos (suc n) = omega (arith, pow-suc 2 n, pow-pos n)

pub bit-mod_pow : (x n j : ℕ) → bit (x % 2 ^ n) j ≡ (ltb j n && bit x j)
unfolding bit
bit-mod_pow x zero j = let e : x % 1 ≡ 0 = omega arith in rw e (ground (arith, bit-zero j))
bit-mod_pow x (suc n) zero = rw (pow-suc 2 n) (ground (arith, mod_double x (2 ^ n) (pow-pos n)))
bit-mod_pow x (suc n) (suc j) =
    rw (pow-suc 2 n, (mod_double x (2 ^ n) (pow-pos n)).0, bit-mod_pow (x / 2) n j) (ground arith)

pub bit_or-lt_pow : (x n i : ℕ) → x < 2 ^ n → i < n → bit_or x (2 ^ i) < 2 ^ n
bit_or-lt_pow x zero i h k = absurd (omega arith)
bit_or-lt_pow x (suc n) zero h k = omega (arith, or_one_step x, pow-suc 2 n)
bit_or-lt_pow x (suc n) (suc i) h k = omega (
  arith,
  or_pow_step x i,
  pow-suc 2 n,
  bit_or-lt_pow (x / 2) n i (omega (arith, pow-suc 2 n)) (omega arith),
)

-- A mask of low ones.
pub bit_and-mask : (x k : ℕ) → bit_and x (2 ^ k - 1) ≡ x % 2 ^ k
bit_and-mask x zero = omega (arith, and_zero x x (le_refl _))
bit_and-mask x (suc k) =
    let half : (2 ^ suc k - 1) / 2 ≡ 2 ^ k - 1 = omega (arith, pow-suc 2 k, pow-pos k) in
    let odd : (2 ^ suc k - 1) % 2 ≡ 1 = omega (arith, pow-suc 2 k, pow-pos k) in
    let (high, low) = mod_double x (2 ^ k) (pow-pos k) in
    rw (and_step x (2 ^ suc k - 1), half, odd, bit_and-mask (x / 2) k, pow-suc 2 k) (omega arith)

-- Low bits put under a shifted number.
pub bit_or-mul_pow : (x k y : ℕ) → y < 2 ^ k → bit_or (x * 2 ^ k) y ≡ x * 2 ^ k + y
bit_or-mul_pow x zero zero h = omega (arith, or_zero (x * 1) (x * 1) (le_refl _))
bit_or-mul_pow x zero (suc y) h = absurd (omega arith)
bit_or-mul_pow x (suc k) y h =
    let scaled : x * 2 ^ suc k ≡ x * 2 ^ k * 2 = omega (arith, ap (λ t. x * t) (pow-suc 2 k)) in
    let half : x * 2 ^ suc k / 2 ≡ x * 2 ^ k = omega arith in
    let even : x * 2 ^ suc k % 2 ≡ 0 = omega arith in
    let rest = bit_or-mul_pow x k (y / 2) (omega (arith, pow-suc 2 k)) in
    rw (or_step (x * 2 ^ suc k) y, half, even, rest) (omega arith)
