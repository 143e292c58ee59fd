-- ===== src/Bignum/Sum.antt =====
-- `bn_add` of crypto.c adds, and its carry is the carry of the sum.
use mox_boot_builder.Prelude.{
  ℕ, suc, ◌+◌, ◌*◌, ◌^◌, ◌≤◌, ◌<◌, ◌≡◌, ap, arith, List, [], ◌∷◌, length,
}
use mox_boot_builder.Bits.{u32}
use mox_boot_builder.Bignum.{add_words, bn_add, carry_of}
use mox_boot_builder.Bignum.Value.{value, scale, AllWords}

-- One round: the word and the carry are those of the sum of three.
add_round :
    (d s c : ℕ)
    → d < 2 ^ 32
    → s < 2 ^ 32
    → c ≤ 1
    → (u32 (u32 (d + c) + s) + 2 ^ 32 * carry_of d s c ≡ d + s + c) × (carry_of d s c ≤ 1)
add_round d s c hd hs hc = ground arith

-- The sum of arrays of the same length.
pub record IsSum (c : ℕ) (dst src : List ℕ) (r : List ℕ × ℕ) : Type 0 where
  pub sum : value r.0 + scale (length dst) * r.1 ≡ value dst + value src + c
  pub words : AllWords r.0
  pub size : length r.0 ≡ length dst
  pub carry : r.1 ≤ 1

pub add_words-IsSum :
    (c : ℕ) (dst src : List ℕ)
    → AllWords dst
    → AllWords src
    → length dst ≡ length src
    → c ≤ 1
    → IsSum c dst src (add_words c dst src)
unfolding add_words
add_words-IsSum c [] [] hd hs e k = omega arith
add_words-IsSum c [] (s ∷ src) hd hs e k = absurd (omega arith)
add_words-IsSum c (d ∷ dst) [] hd hs e k = absurd (omega arith)
add_words-IsSum c (d ∷ dst) (s ∷ src) hd hs e k =
    let round = add_round d s c hd.0 hs.0 k in
    let rest = add_words-IsSum (carry_of d s c) dst src hd.1 hs.1 (omega arith) round.1 in
    record {
      sum = omega (arith, round.0, ap (λ (t : ℕ). 2 ^ 32 * t) rest.sum);
      words = (omega arith, rest.words);
      size = ap suc rest.size;
      carry = rest.carry;
    }

-- `bn_add` is the addition of the numbers that two arrays of the same length stand for: it stores
-- the sum, and returns the carry out of the last word, 0 or 1.
pub bn_add_lem :
    (dst src : List ℕ)
    → AllWords dst
    → AllWords src
    → length dst ≡ length src
    → let r = bn_add dst src in
      (value r.0 + scale (length dst) * r.1 ≡ value dst + value src)
      × (r.1 ≤ 1)
      × AllWords r.0
      × (length r.0 ≡ length dst)
unfolding bn_add
bn_add_lem dst src hd hs e =
    let r = add_words-IsSum 0 dst src hd hs e (omega arith) in
    (omega (arith, r.sum), r.carry, r.words, r.size)
