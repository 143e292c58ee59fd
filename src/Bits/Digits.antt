-- ===== src/Bits/Digits.antt =====
-- The native bit operations by their lowest digit.
use Prim.Native.Nat.{digits, bit_and-bitwise, bit_or-bitwise, bitwise}
use mox_boot_builder.Prelude.{
  ℕ, zero, suc, ◌+◌, ◌*◌, ◌/◌, ◌%◌, ◌≤◌, ◌≡◌, refl, arith, min, max, bit_and, bit_or,
}

module _ (alone : ℕ → ℕ) (join : ℕ → ℕ → ℕ) where
  -- Any two amounts of fuel that cover the number give the same digits.
  fuel_irrelevant :
      (n k a b : ℕ) → a ≤ n → a ≤ k → digits alone join n a b ≡ digits alone join k a b
  fuel_irrelevant n k zero b p q = both n k
    where
      both : (i j : ℕ) → digits alone join i zero b ≡ digits alone join j zero b
      both zero zero = refl
      both zero (suc j) = refl
      both (suc i) zero = refl
      both (suc i) (suc j) = refl
  fuel_irrelevant zero k (suc a) b p q = absurd (omega arith)
  fuel_irrelevant (suc n) zero (suc a) b p q = absurd (omega arith)
  fuel_irrelevant (suc n) (suc k) (suc a) b p q =
      rw (fuel_irrelevant n k (suc a / 2) (b / 2) (omega arith) (omega arith))

  lowest_digit :
      (a b : ℕ)
      → bitwise alone join (suc a) b
        ≡ bitwise alone join (suc a / 2) (b / 2) * 2 + join (suc a % 2) (b % 2)
  lowest_digit a b =
      omega (arith, fuel_irrelevant a (suc a / 2) (suc a / 2) (b / 2) (omega arith) (omega arith))

pub bit_or_digit : (a b : ℕ) → bit_or a b ≡ bit_or (a / 2) (b / 2) * 2 + max (a % 2) (b % 2)
bit_or_digit zero b = simp bit_or-bitwise (omega arith)
bit_or_digit (suc a) b = simp bit_or-bitwise (lowest_digit (λ y. y) max a b)

pub bit_and_digit : (a b : ℕ) → bit_and a b ≡ bit_and (a / 2) (b / 2) * 2 + min (a % 2) (b % 2)
bit_and_digit zero b = simp bit_and-bitwise (omega arith)
bit_and_digit (suc a) b = simp bit_and-bitwise (lowest_digit (λ y. 0) min a b)
