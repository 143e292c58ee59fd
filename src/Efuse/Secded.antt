-- ===== src/Efuse/Secded.antt =====
-- `secded_ecc` of efuse.c: the eight check bits of a 64-bit row.
use mox_boot_builder.Prelude.{
  ℕ, zero, suc, ◌+◌, ◌/◌, ◌%◌, ◌^◌, ◌<◌, ◌≡◌, refl, arith, Bool, true, not, ◌&&◌, List, [], ◌∷◌,
  bit_and, bit_or, bit_xor, ◌==◌, ==→eq, Bool-cases, inl, inr, ap, sym, ◌∙◌, if◌then◌else◌,
}
use mox_boot_builder.Bits.{◌<<◌, ◌>>>◌}

abbrev masks : List ℕ
masks =
    0x145011110ff014ff ∷ 0x24ff2222f000249f ∷ 0x4c9f444400ff44d0 ∷ 0x84d08888ff0f8c50
    ∷ 0x0931f0ff11110b21 ∷ 0x0b22ff002222fa32 ∷ 0xfa24000f4444ff24 ∷ 0xff280ff088880928 ∷ []

-- The inner loop: `j` is the bit of `data`, `tmp` what is left of the mask, `t` the parity so far.
parity : ℕ → ℕ → ℕ → ℕ → ℕ → ℕ
parity zero j tmp word t = t
parity (suc n) j tmp word t =
    parity n (j + 1) (tmp >>> 1) word
      (if bit_and tmp 1 == 1 then bit_xor t (bit_and (word >>> j) 1) else t)

-- The outer loop, over the masks from bit `i` on.
check_bits : ℕ → List ℕ → ℕ → ℕ → ℕ
unfolding parity
check_bits i [] word acc = acc
check_bits i (m ∷ ms) word acc = check_bits (i + 1) ms word (bit_or acc (parity 64 0 m word 0 << i))

unfoldable pub secded_ecc : ℕ → ℕ
unfolding check_bits
secded_ecc word = check_bits 0 masks word 0

-- The check bits of each word with a single bit set, and their pairwise comparison.
columns : ℕ → List ℕ
columns zero = []
columns (suc n) = secded_ecc (2 ^ n) ∷ columns n

absent : ℕ → List ℕ → Bool
absent c [] = true
absent c (d ∷ ds) = not (c == d) && absent c ds

distinct : List ℕ → Bool
distinct [] = true
distinct (c ∷ cs) = absent c cs && distinct cs

pub weight : ℕ → ℕ → ℕ
weight zero c = 0
weight (suc n) c = c % 2 + weight n (c / 2)

odd_weights : List ℕ → Bool
odd_weights [] = true
odd_weights (c ∷ cs) = (weight 8 c % 2 == 1) && odd_weights cs

column_table : (distinct (columns 64) ≡ true) × (odd_weights (columns 64) ≡ true)
unfolding secded_ecc columns absent distinct weight odd_weights
column_table = (refl, refl)

absent_sound : (n j c : ℕ) → absent c (columns n) ≡ true → j < n → c ≡ secded_ecc (2 ^ j) → ⊥
unfolding absent columns
absent_sound zero j c h lt e = absurd (omega arith)
absent_sound (suc n) j c h lt e = elim (Bool-cases (j == n)) [
  | inl same ↦
      let p : c ≡ secded_ecc (2 ^ n) = e ∙ ap (λ k. secded_ecc (2 ^ k)) (==→eq j n same) in
      ground arith
  | inr other ↦ absent_sound n j c (ground arith) (ground arith) e
]

distinct_sound :
    (n i j : ℕ)
    → distinct (columns n) ≡ true
    → i < n
    → j < n
    → secded_ecc (2 ^ i) ≡ secded_ecc (2 ^ j)
    → i ≡ j
unfolding distinct columns
distinct_sound zero i j h lti ltj e = absurd (omega arith)
distinct_sound (suc n) i j h lti ltj e = elim (Bool-cases (i == n)) [
  | inl si ↦ elim (Bool-cases (j == n)) [
    | inl sj ↦ ground arith
    | inr oj ↦
        let p : secded_ecc (2 ^ n) ≡ secded_ecc (2 ^ j) =
          ap (λ k. secded_ecc (2 ^ k)) (sym (==→eq i n si)) ∙ e in
        absurd (absent_sound n j (secded_ecc (2 ^ n)) (ground arith) (ground arith) p)
  ]
  | inr oi ↦ elim (Bool-cases (j == n)) [
    | inl sj ↦
        let p : secded_ecc (2 ^ n) ≡ secded_ecc (2 ^ i) =
          ap (λ k. secded_ecc (2 ^ k)) (sym (==→eq j n sj)) ∙ sym e in
        absurd (absent_sound n i (secded_ecc (2 ^ n)) (ground arith) (ground arith) p)
    | inr oj ↦ distinct_sound n i j (ground arith) (ground arith) (ground arith) e
  ]
]

odd_sound :
    (n i : ℕ) → odd_weights (columns n) ≡ true → i < n → weight 8 (secded_ecc (2 ^ i)) % 2 ≡ 1
unfolding odd_weights columns
odd_sound zero i h lt = absurd (omega arith)
odd_sound (suc n) i h lt = elim (Bool-cases (i == n)) [
  | inl same ↦ rw (==→eq i n same) (ground arith)
  | inr other ↦ odd_sound n i (ground arith) (ground arith)
]

-- The check bits tell single-bit errors apart: the check bits of the 64 words with one bit set are
-- pairwise different, and each of them has an odd number of ones, so that no two of them differ by
-- another one.
pub secded_ecc-separates :
    (i j : ℕ)
    → i < 64
    → j < 64
    → (weight 8 (secded_ecc (2 ^ i)) % 2 ≡ 1) × (secded_ecc (2 ^ i) ≡ secded_ecc (2 ^ j) → i ≡ j)
secded_ecc-separates i j hi hj =
    (odd_sound 64 i column_table.1 hi, distinct_sound 64 i j column_table.0 hi hj)
