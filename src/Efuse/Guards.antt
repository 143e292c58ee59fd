-- ===== src/Efuse/Guards.antt =====
-- Which fuses a write of efuse.c burns, and when it locks the row of the check bits.
use native.Mathlib.Nat.{pow-suc, div-div-eq-div-mul, div-add-mod}
use native.Mathlib.Numerals.{towards_suc}
use mox_boot_builder.Prelude.{
  ℕ, zero, suc, ◌+◌, ◌*◌, ◌/◌, ◌%◌, ◌^◌, ◌<◌, ◌≤◌, ◌≡◌, refl, sym, ap, ap₂, ==→eq, ◌∙◌, arith, Bool,
  true, false, List, [], ◌∷◌, bit_and, ◌==◌, if◌then◌else◌, Bool-cases, inl, inr,
}
use mox_boot_builder.Bits.{◌>>>◌}
use mox_boot_builder.Bits.Fields.{and_mask}
use mox_boot_builder.Bus.{Bus, Returns}
use mox_boot_builder.Efuse.Write.{burn, burn_bits}

abbrev is_one : ℕ → ℕ → Bool
is_one word i = bit_and (word >>> i) 1 == 0

-- The bits of `word` from `i` on that are set, among `n`, in ascending order.
set_bits : ℕ → ℕ → ℕ → List ℕ
set_bits zero i word = []
set_bits (suc n) i word =
    if bit_and (word >>> i) 1 == 0 then set_bits n (i + 1) word else i ∷ set_bits n (i + 1) word

pub total : List ℕ → ℕ
total [] = 0
total (j ∷ js) = 2 ^ j + total js

-- The places ascend strictly, from `i` on.
abbrev pub IsAscending : ℕ → List ℕ → Type 0
IsAscending i [] = Unit
IsAscending i (j ∷ js) = (i ≤ j) × IsAscending (j + 1) js

IsAscending-from_later : (i : ℕ) (js : List ℕ) → IsAscending (i + 1) js → IsAscending i js
IsAscending-from_later i [] h = tt
IsAscending-from_later i (j ∷ js) h = (omega (arith, h.0), h.1)

set_bits-IsAscending : (n i word : ℕ) → IsAscending i (set_bits n i word)
unfolding set_bits
set_bits-IsAscending zero i word = tt
set_bits-IsAscending (suc n) i word = elim (Bool-cases (bit_and (word >>> i) 1 == 0)) [
  | inl e ↦
      rw e
        (IsAscending-from_later i (set_bits n (i + 1) word) (set_bits-IsAscending n (i + 1) word))
  | inr e ↦ rw e (omega arith, set_bits-IsAscending n (i + 1) word)
]

halve_mod : (q m : ℕ) → q % (2 * m) ≡ q % 2 + 2 * (q / 2 % m)
halve_mod q m =
    let e = ap (λ (t : ℕ). 2 * m * t) (div-div-eq-div-mul q 2 m) in
    omega (arith, e, div-add-mod q (2 * m), div-add-mod (q / 2) m)

pow_twice : (n : ℕ) → 2 ^ suc n ≡ 2 * 2 ^ n
pow_twice n = omega (arith, pow-suc 2 n)

mod_one : (q : ℕ) → q % 1 ≡ 0
mod_one q = omega arith

even_bit : (q : ℕ) → (bit_and q 1 == 0) ≡ true → q % 2 ≡ 0
even_bit q e = omega (arith, and_mask 1 q, ==→eq (bit_and q 1) 0 e)

odd_bit : (q : ℕ) → (bit_and q 1 == 0) ≡ false → q % 2 ≡ 1
odd_bit q e = ground (arith, and_mask 1 q)

double_pow : (i : ℕ) → 2 ^ (i + 1) ≡ 2 ^ i * 2
double_pow i = simp towards_suc (omega (arith, pow-suc 2 i))

total-set_bits : (n i word : ℕ) → total (set_bits n i word) ≡ word / 2 ^ i % 2 ^ n * 2 ^ i
unfolding total set_bits
total-set_bits zero i word =
    let p : word / 2 ^ i % 2 ^ 0 * 2 ^ i ≡ 0 * 2 ^ i =
      ap (λ (t : ℕ). t * 2 ^ i) (mod_one (word / 2 ^ i)) in
    omega (arith, p)
total-set_bits (suc n) i word =
    let q = word / 2 ^ i in
    let next : word / 2 ^ (i + 1) ≡ q / 2 =
      ap (λ (t : ℕ). word / t) (double_pow i) ∙ sym (div-div-eq-div-mul word (2 ^ i) 2) in
    let ih : total (set_bits n (i + 1) word) ≡ q / 2 % 2 ^ n * (2 ^ i * 2) =
      total-set_bits n (i + 1) word ∙ ap₂ (λ (a b : ℕ). a % 2 ^ n * b) next (double_pow i) in
    let whole : q % 2 ^ suc n * 2 ^ i ≡ (q % 2 + 2 * (q / 2 % 2 ^ n)) * 2 ^ i =
      ap (λ (t : ℕ). t * 2 ^ i) (ap (λ (t : ℕ). q % t) (pow_twice n) ∙ halve_mod q (2 ^ n)) in
    elim (Bool-cases (bit_and q 1 == 0)) [
      | inl e ↦ rw e (
          let z : q % 2 * 2 ^ i ≡ 0 * 2 ^ i = ap (λ (t : ℕ). t * 2 ^ i) (even_bit q e) in
          omega (arith, ih, whole, z))
      | inr e ↦ rw e (
          let z : q % 2 * 2 ^ i ≡ 1 * 2 ^ i = ap (λ (t : ℕ). t * 2 ^ i) (odd_bit q e) in
          omega (arith, ih, whole, z))
    ]

module _ {S : Type 0} (bus : Bus S) where
  -- The pulses for a list of fuses of a row, in order.
  pub pulses : ℕ → List ℕ → S → S
  pulses row [] s = s
  pulses row (j ∷ js) s = pulses row js (burn bus row j s).1

  burn_bits-pulses :
      (n i row word : ℕ) (s : S)
      → Returns (burn_bits bus n i row word s) tt (pulses row (set_bits n i word) s)
  unfolding burn_bits pulses set_bits
  burn_bits-pulses zero i row word s = refl
  burn_bits-pulses (suc n) i row word s = elim (Bool-cases (bit_and (word >>> i) 1 == 0)) [
    | inl e ↦ rw e (burn_bits-pulses n (i + 1) row word s)
    | inr e ↦ rw e (burn_bits-pulses n (i + 1) row word (burn bus row i s).1)
  ]

  -- Programming a 64-bit value does nothing but burn fuses of the row, in ascending order and each
  -- once, and the positions burned are those of the value's binary digits: the powers of two add up
  -- to it.
  pub burn_bits-exact :
      (row word : ℕ) (s : S)
      → word < 2 ^ 64
      → (js : List ℕ) × Returns (burn_bits bus 64 0 row word s) tt (pulses row js s)
        × IsAscending 0 js
        × (total js ≡ word)
  burn_bits-exact row word s h =
      let sum : total (set_bits 64 0 word) ≡ word = omega (arith, total-set_bits 64 0 word) in
      (set_bits 64 0 word, burn_bits-pulses 64 0 row word s, set_bits-IsAscending 64 0 word, sum)
