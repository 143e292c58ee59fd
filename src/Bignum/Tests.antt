-- ===== src/Bignum/Tests.antt =====
-- The arithmetic of crypto.c at concrete inputs.
use mox_boot_builder.Prelude.{
  ℕ, ◌+◌, ◌*◌, ◌%◌, ◌≤◌, ◌≡◌, refl, arith, some, List, [], ◌∷◌, length, replicate,
}
use mox_boot_builder.Bignum.{bn_add, bn_cmp, bn_addmod}
use mox_boot_builder.Bignum.Value.{value, scale, AllWords}
use mox_boot_builder.Bignum.Sum.{bn_add_lem}
use mox_boot_builder.Bignum.Compare.{order_of, bn_cmp-order}
use mox_boot_builder.Bignum.Modulo.{bn_addmod_lem}

-- 2 ^ 512 + 5, and 7.
abbrev big : List ℕ
big = 5 ∷ 0 ∷ 0 ∷ 0 ∷ 0 ∷ 0 ∷ 0 ∷ 0 ∷ 0 ∷ 0 ∷ 0 ∷ 0 ∷ 0 ∷ 0 ∷ 0 ∷ 0 ∷ 1 ∷ []

abbrev word : ℕ → List ℕ
word w = w ∷ replicate 16 0

bn_add_lem_example :
    let r = bn_add (0xffffffff ∷ 3 ∷ []) (1 ∷ 4 ∷ []) in
    (value r.0 + scale 2 * r.1 ≡ value (0xffffffff ∷ 3 ∷ []) + value (1 ∷ 4 ∷ []))
    × (r.1 ≤ 1)
    × AllWords r.0
    × (length r.0 ≡ 2)
bn_add_lem_example = bn_add_lem (0xffffffff ∷ 3 ∷ []) (1 ∷ 4 ∷ []) (omega arith) (omega arith) refl

bn_cmp-order_example : bn_cmp big (word 7) ≡ order_of (value big) (value (word 7))
bn_cmp-order_example = bn_cmp-order big (word 7) (omega arith) (omega arith) refl refl

bn_addmod_lem_example :
    (out : List ℕ) × (bn_addmod 3 (word 12) (word 7) (word 9) ≡ some out)
    × (value out ≡ (value (word 12) + value (word 7)) % value (word 9))
    × AllWords out
    × (length out ≡ 17)
bn_addmod_lem_example =
    bn_addmod_lem 3 (word 12) (word 7) (word 9) (omega arith) (omega arith) (omega arith) refl refl
      refl (omega arith) (omega arith)
