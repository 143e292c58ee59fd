-- ===== src/Bits/Split.antt =====
-- `|` and `&` of words that are cut at the same place act on both parts.
use native.Mathlib.Nat.{pow-suc}
use mox_boot_builder.Bits.Digits.{bit_or_digit, bit_and_digit}
use mox_boot_builder.Prelude.{
  ℕ, zero, suc, ◌+◌, ◌*◌, ◌/◌, ◌%◌, ◌^◌, ◌<◌, ◌≡◌, ap, arith, bit_and, bit_or,
}

-- A word of `suc k` low bits, by its half.
halves : (k q r : ℕ) → (q * 2 ^ suc k + r) / 2 ≡ q * 2 ^ k + r / 2
halves k q r = omega (arith, ap (λ (t : ℕ). q * t) (pow-suc 2 k))

low_bit : (k q r : ℕ) → (q * 2 ^ suc k + r) % 2 ≡ r % 2
low_bit k q r = omega (arith, ap (λ (t : ℕ). q * t) (pow-suc 2 k))

pub or_split :
    (k q r p s : ℕ)
    → r < 2 ^ k
    → s < 2 ^ k
    → bit_or (q * 2 ^ k + r) (p * 2 ^ k + s) ≡ bit_or q p * 2 ^ k + bit_or r s
or_split zero q r p s h i =
    let a : r ≡ 0 = omega arith in
    let b : s ≡ 0 = omega arith in
    let c : q * 2 ^ 0 + 0 ≡ q = omega arith in
    let d : p * 2 ^ 0 + 0 ≡ p = omega arith in rw (a, b, c, d) (omega arith)
or_split (suc k) q r p s h i = omega (
  arith,
  bit_or_digit (q * 2 ^ suc k + r) (p * 2 ^ suc k + s),
  bit_or_digit r s,
  ap (λ (t : ℕ). bit_or t ((p * 2 ^ suc k + s) / 2)) (halves k q r),
  ap (λ (t : ℕ). bit_or (q * 2 ^ k + r / 2) t) (halves k p s),
  low_bit k q r,
  low_bit k p s,
  or_split k q (r / 2) p (s / 2) (omega (arith, pow-suc 2 k)) (omega (arith, pow-suc 2 k)),
  ap (λ (t : ℕ). bit_or q p * t) (pow-suc 2 k),
)

pub and_split :
    (k q r p s : ℕ)
    → r < 2 ^ k
    → s < 2 ^ k
    → bit_and (q * 2 ^ k + r) (p * 2 ^ k + s) ≡ bit_and q p * 2 ^ k + bit_and r s
and_split zero q r p s h i =
    let a : r ≡ 0 = omega arith in
    let b : s ≡ 0 = omega arith in
    let c : q * 2 ^ 0 + 0 ≡ q = omega arith in
    let d : p * 2 ^ 0 + 0 ≡ p = omega arith in rw (a, b, c, d) (omega arith)
and_split (suc k) q r p s h i = omega (
  arith,
  bit_and_digit (q * 2 ^ suc k + r) (p * 2 ^ suc k + s),
  bit_and_digit r s,
  ap (λ (t : ℕ). bit_and t ((p * 2 ^ suc k + s) / 2)) (halves k q r),
  ap (λ (t : ℕ). bit_and (q * 2 ^ k + r / 2) t) (halves k p s),
  low_bit k q r,
  low_bit k p s,
  and_split k q (r / 2) p (s / 2) (omega (arith, pow-suc 2 k)) (omega (arith, pow-suc 2 k)),
  ap (λ (t : ℕ). bit_and q p * t) (pow-suc 2 k),
)
