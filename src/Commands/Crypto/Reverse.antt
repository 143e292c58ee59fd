-- ===== src/Commands/Crypto/Reverse.antt =====
-- `array_reverse_u32` of main.c.
use mox_boot_builder.Prelude.{
  ℕ, zero, suc, ◌+◌, ◌-◌, ◌*◌, ◌/◌, ◌≤◌, ◌<◌, ◌≡◌, ◌≢◌, refl, ap, ◌∙◌, arith, inl, inr, ◌⊎◌, ◌==◌,
  Bool-cases, List, length, length-set, get_or, set, get_or-set_self, get_or-set_ne,
}
use mox_boot_builder.Commands.Crypto.{reverse_loop, array_reverse_u32}

place : (a b : ℕ) → (a ≡ b) ⊎ (a ≢ b)
place a b = elim (Bool-cases (a == b)) [
  | inl e ↦ inl (ground arith)
  | inr n ↦ inr (λ e. ground arith)
]

-- A round's two writes.
abbrev swap : ℕ → ℕ → List ℕ → List ℕ
swap i j x = set (set x i (get_or x j 0)) j (get_or x i 0)

length-swap : (i j : ℕ) (x : List ℕ) → length (swap i j x) ≡ length x
length-swap i j x =
    length-set (set x i (get_or x j 0)) j (get_or x i 0) ∙ length-set x i (get_or x j 0)

swap-other : (i j k : ℕ) (x : List ℕ) → i ≢ k → j ≢ k → get_or (swap i j x) k 0 ≡ get_or x k 0
swap-other i j k x ni nj =
    get_or-set_ne (set x i (get_or x j 0)) j k (get_or x i 0) 0 nj
    ∙ get_or-set_ne x i k (get_or x j 0) 0 ni

swap-first : (i j : ℕ) (x : List ℕ) → i < j → j < length x → get_or (swap i j x) i 0 ≡ get_or x j 0
swap-first i j x h l =
    get_or-set_ne (set x i (get_or x j 0)) j i (get_or x i 0) 0 (λ e. omega arith)
    ∙ get_or-set_self x i (get_or x j 0) 0 (omega arith)

swap-last : (i j : ℕ) (x : List ℕ) → i < j → j < length x → get_or (swap i j x) j 0 ≡ get_or x i 0
swap-last i j x h l =
    get_or-set_self (set x i (get_or x j 0)) j (get_or x i 0) 0
      (omega (arith, length-set x i (get_or x j 0)))

pub length-reverse_loop : (n i j : ℕ) (x : List ℕ) → length (reverse_loop n i j x) ≡ length x
unfolding reverse_loop
length-reverse_loop zero i j x = refl
length-reverse_loop (suc n) i j x =
    length-reverse_loop n (i + 1) (j - 1) (swap i j x) ∙ length-swap i j x

-- The loop leaves alone what lies outside its two places.
loop-outside :
    (n i j k : ℕ) (x : List ℕ)
    → i + 2 * n ≤ j + 1
    → (k < i) ⊎ (j < k)
    → get_or (reverse_loop n i j x) k 0 ≡ get_or x k 0
unfolding reverse_loop
loop-outside zero i j k x h out = refl
loop-outside (suc n) i j k x h out =
    loop-outside n (i + 1) (j - 1) k (swap i j x) (omega arith) (ground arith)
    ∙ swap-other i j k x (λ e. ground arith) (λ e. ground arith)

-- From the first place to the last, each word comes from the other side.
loop-inside :
    (n i j k : ℕ) (x : List ℕ)
    → i + 2 * n ≤ j + 1
    → j ≤ i + 2 * n
    → j < length x
    → i ≤ k
    → k ≤ j
    → get_or (reverse_loop n i j x) k 0 ≡ get_or x (i + j - k) 0
unfolding reverse_loop
loop-inside zero i j k x h g l a b =
    let at : k ≡ i + j - k = omega arith in ap (λ (m : ℕ). get_or x m 0) at
loop-inside (suc n) i j k x h g l a b = elim (place k i) [
  | inl first ↦
      loop-outside n (i + 1) (j - 1) k (swap i j x) (omega arith) (inl (omega arith))
      ∙ ap (λ (m : ℕ). get_or (swap i j x) m 0) first
      ∙ swap-first i j x (omega arith) l
      ∙ ap (λ (m : ℕ). get_or x m 0) (omega arith)
  | inr ni ↦ elim (place k j) [
    | inl last ↦
        loop-outside n (i + 1) (j - 1) k (swap i j x) (omega arith) (inr (omega arith))
        ∙ ap (λ (m : ℕ). get_or (swap i j x) m 0) last
        ∙ swap-last i j x (omega arith) l
        ∙ ap (λ (m : ℕ). get_or x m 0) (omega arith)
    | inr nj ↦
        loop-inside n (i + 1) (j - 1) k (swap i j x) (omega arith) (omega arith)
          (omega (arith, length-swap i j x)) (omega arith) (omega arith)
        ∙ ap (λ (m : ℕ). get_or (swap i j x) m 0) (omega arith)
        ∙ swap-other i j (i + j - k) x (λ e. omega arith) (λ e. omega arith)
  ]
]

-- Reversing a whole array keeps its length, and the word at each place is the one that was as far
-- from the end as the place is from the start.
pub array_reverse_u32_lem :
    (x : List ℕ) (k : ℕ)
    → k < length x
    → (length (array_reverse_u32 x (length x)) ≡ length x)
      × (get_or (array_reverse_u32 x (length x)) k 0 ≡ get_or x (length x - 1 - k) 0)
unfolding array_reverse_u32
array_reverse_u32_lem x k h =
    let n = length x / 2 in
    (
      length-reverse_loop n 0 (length x - 1) x,
      loop-inside n 0 (length x - 1) k x (omega arith) (omega arith) (omega arith) (omega arith)
            (omega arith)
          ∙ ap (λ (m : ℕ). get_or x m 0) (omega arith),
    )
