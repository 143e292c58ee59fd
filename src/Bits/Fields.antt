-- ===== src/Bits/Fields.antt =====
-- `&` with a mask of low bits is a remainder, `|` of disjoint fields is a sum.
use Prim.Native.Nat.{bit_or-bitwise}
use native.Mathlib.Nat.{pow-suc, one-le-pow, div-div-eq-div-mul}
use mox_boot_builder.Bits.Digits.{bit_or_digit, bit_and_digit}
use mox_boot_builder.Prelude.{
  ℕ, zero, suc, ◌+◌, ◌-◌, ◌*◌, ◌/◌, ◌%◌, ◌^◌, ◌≤◌, ◌<◌, ◌≡◌, refl, sym, ap, ◌∙◌, arith, bit_and,
  bit_or,
}

or-zero_fuel : (n a : ℕ) → a ≤ n → bit_or a 0 ≡ a
or-zero_fuel n zero h = refl
or-zero_fuel zero (suc a) h = absurd (omega arith)
or-zero_fuel (suc n) (suc a) h =
    omega (arith, bit_or_digit (suc a) 0, or-zero_fuel n (suc a / 2) (omega arith))

and-zero_fuel : (n a : ℕ) → a ≤ n → bit_and a 0 ≡ 0
and-zero_fuel n zero h = refl
and-zero_fuel zero (suc a) h = absurd (omega arith)
and-zero_fuel (suc n) (suc a) h =
    omega (arith, bit_and_digit (suc a) 0, and-zero_fuel n (suc a / 2) (omega arith))

pub bit_or-zero : (a : ℕ) → bit_or a 0 ≡ a
bit_or-zero a = or-zero_fuel a a (omega arith)

pub zero-or : (a : ℕ) → bit_or 0 a ≡ a
zero-or a = bit_or-bitwise 0 a

pub bit_and-zero : (a : ℕ) → bit_and a 0 ≡ 0
bit_and-zero a = and-zero_fuel a a (omega arith)

double_field : (q k : ℕ) → q * 2 ^ suc k ≡ 2 * (q * 2 ^ k)
double_field q k = omega (arith, ap (λ (t : ℕ). q * t) (pow-suc 2 k))

-- A low field of `k` bits under a high one.
pub or_fields : (k q r : ℕ) → r < 2 ^ k → bit_or (q * 2 ^ k) r ≡ q * 2 ^ k + r
or_fields zero q r h = ground (arith, bit_or-zero q)
or_fields (suc k) q r h =
    ground
      (arith, bit_or_digit (q * 2 ^ suc k) r, double_field q k, or_fields k q (r / 2) (omega arith))

-- The same with the fields swapped.
pub or_fields_swap : (k q r : ℕ) → r < 2 ^ k → bit_or r (q * 2 ^ k) ≡ q * 2 ^ k + r
or_fields_swap zero q r h = let e : r ≡ 0 = omega arith in rw (e, zero-or) (omega arith)
or_fields_swap (suc k) q r h = ground (
  arith,
  bit_or_digit r (q * 2 ^ suc k),
  double_field q k,
  or_fields_swap k q (r / 2) (omega arith),
)

and_fields : (k q r : ℕ) → r < 2 ^ k → bit_and (q * 2 ^ k + r) (2 ^ k - 1) ≡ r
and_fields zero q r h = ground (arith, bit_and-zero (q * 1 + r))
and_fields (suc k) q r h = ground (
  arith,
  bit_and_digit (q * 2 ^ suc k + r) (2 ^ suc k - 1),
  double_field q k,
  pow-suc 2 k,
  one-le-pow k 2,
  and_fields k q (r / 2) (omega arith),
)

-- A mask of the `k` low bits.
pub and_mask : (k a : ℕ) → bit_and a (2 ^ k - 1) ≡ a % 2 ^ k
and_mask k a = ground (arith, one-le-pow k 2, and_fields k (a / 2 ^ k) (a % 2 ^ k))

pow_double : (k : ℕ) → 2 ^ suc k ≡ 2 * 2 ^ k
pow_double k = omega (arith, pow-suc 2 k)

-- A mask whose `k` low bits are clear.
pub and_shift : (k a m : ℕ) → bit_and a (m * 2 ^ k) ≡ bit_and (a / 2 ^ k) m * 2 ^ k
and_shift zero a m =
    let p : m * 2 ^ 0 ≡ m = omega arith in
    let q : a / 2 ^ 0 ≡ a = omega arith in rw (p, q) (omega arith)
and_shift (suc k) a m =
    let half : a / 2 ^ suc k ≡ a / 2 / 2 ^ k =
      ap (λ (t : ℕ). a / t) (pow_double k) ∙ sym (div-div-eq-div-mul a 2 (2 ^ k)) in
    let even : m * 2 ^ suc k / 2 ≡ m * 2 ^ k = omega (arith, double_field m k) in
    rw half (
      omega (
        arith,
        bit_and_digit a (m * 2 ^ suc k),
        ap (λ (t : ℕ). bit_and (a / 2) t) even,
        and_shift k (a / 2) m,
        double_field m k,
        double_field (bit_and (a / 2 / 2 ^ k) m) k,
      ))
