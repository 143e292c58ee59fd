-- ===== src/Bignum/Compare.antt =====
-- `bn_cmp` of crypto.c orders arrays of words as the numbers that they stand for.
use mox_boot_builder.Prelude.{
  ℕ, zero, suc, ◌+◌, ◌*◌, ◌^◌, ◌<◌, ◌≡◌, refl, ap, ◌∙◌, arith, List, [], ◌∷◌, length, ltb,
  if◌then◌else◌,
}
use mox_boot_builder.Strings.{ℤ, pos, negsuc}
use mox_boot_builder.Bignum.{cmp_below, bn_cmp}
use mox_boot_builder.Bignum.Value.{value, AllWords}

-- -1, 0 or 1, as the first number is less than, equal to or greater than the second.
abbrev pub order_of : ℕ → ℕ → ℤ
order_of x y = if ltb x y then negsuc 0 else if ltb y x then pos 1 else pos 0

-- The lowest words decide only if all others are equal.
abbrev with_lowest : ℕ → ℕ → ℤ → ℤ
with_lowest a b (pos zero) = order_of a b
with_lowest a b (pos (suc n)) = pos (suc n)
with_lowest a b (negsuc n) = negsuc n

cmp_below-cons :
    (n a b : ℕ) (xs ys : List ℕ)
    → cmp_below (suc n) (a ∷ xs) (b ∷ ys) ≡ with_lowest a b (cmp_below n xs ys)
unfolding cmp_below
cmp_below-cons zero a b xs ys = refl
cmp_below-cons (suc n) a b xs ys = ground (arith, cmp_below-cons n a b xs ys)

order_of-cons :
    (a b v w : ℕ)
    → a < 2 ^ 32
    → b < 2 ^ 32
    → with_lowest a b (order_of v w) ≡ order_of (a + 2 ^ 32 * v) (b + 2 ^ 32 * w)
order_of-cons a b v w ha hb = ground arith

cmp_below_lem :
    (n : ℕ) (xs ys : List ℕ)
    → AllWords xs
    → AllWords ys
    → length xs ≡ n
    → length ys ≡ n
    → cmp_below n xs ys ≡ order_of (value xs) (value ys)
unfolding cmp_below
cmp_below_lem zero [] [] ha hb la lb = refl
cmp_below_lem zero (a ∷ xs) ys ha hb la lb = absurd (omega arith)
cmp_below_lem zero [] (b ∷ ys) ha hb la lb = absurd (omega arith)
cmp_below_lem (suc n) [] ys ha hb la lb = absurd (omega arith)
cmp_below_lem (suc n) (a ∷ xs) [] ha hb la lb = absurd (omega arith)
cmp_below_lem (suc n) (a ∷ xs) (b ∷ ys) ha hb la lb =
    let rest = cmp_below_lem n xs ys ha.1 hb.1 (omega arith) (omega arith) in
    cmp_below-cons n a b xs ys
    ∙ ap (with_lowest a b) rest
    ∙ order_of-cons a b (value xs) (value ys) ha.0 hb.0

-- On arrays of seventeen words, `bn_cmp` is the comparison of the numbers: -1, 0 or 1.
pub bn_cmp-order :
    (a b : List ℕ)
    → AllWords a
    → AllWords b
    → length a ≡ 17
    → length b ≡ 17
    → bn_cmp a b ≡ order_of (value a) (value b)
unfolding bn_cmp
bn_cmp-order a b = cmp_below_lem 17 a b
