-- ===== src/Stdio/Digits.antt =====
-- The digits that stdio.c prints stand for the number.
use mathlib.Core.List.{map}
use native.Mathlib.Nat.{pow-suc}
use mox_boot_builder.Prelude.{
  ℕ, zero, suc, ◌+◌, ◌-◌, ◌*◌, ◌/◌, ◌%◌, ◌^◌, ◌<◌, ◌≤◌, ◌≡◌, ◌⊎◌, inl, inr, refl, ap, ◌∙◌,
  Bool-cases, length-append, arith, Bool, List, [], ◌∷◌, ◌++◌, ◌==◌, if◌then◌else◌, ltb, length,
}
use mox_boot_builder.Bits.Fields.{and_mask}
use mox_boot_builder.Stdio.{divmod10, split_digit, digit_loop, digit}

-- The error of the shifted sums, for a 64-bit number: at most one ten and nine.
quotient_bounds :
    (n q0 q1 q2 q3 q4 : ℕ)
    → n < 2 ^ 64
    → q0 ≡ n / 2 + n / 4
    → q1 ≡ q0 + q0 / 2 ^ 4
    → q2 ≡ q1 + q1 / 2 ^ 8
    → q3 ≡ q2 + q2 / 2 ^ 16
    → q4 ≡ q3 + q3 / 2 ^ 32
    → (10 * (q4 / 8) ≤ n) × (n ≤ 10 * (q4 / 8) + 19)
quotient_bounds n q0 q1 q2 q3 q4 h e0 e1 e2 e3 e4 = (omega arith, omega arith)

divmod_step :
    (n q : ℕ)
    → 10 * q ≤ n
    → n ≤ 10 * q + 19
    → let r = (n - 10 * q) % 2 ^ 8 in (r % 10 ≡ n % 10) × (q + (if ltb 9 r then 1 else 0) ≡ n / 10)
divmod_step n q lo hi = ground arith

-- The shifts and additions of `divmod10` divide by ten: for every 64-bit number it returns the
-- remainder and leaves the quotient.
pub divmod10_lem : (n : ℕ) → n < 2 ^ 64 → ((divmod10 n).0 ≡ n % 10) × ((divmod10 n).1 ≡ n / 10)
unfolding divmod10
divmod10_lem n h =
    let q0 = n / 2 ^ 1 + n / 2 ^ 2 in
    let q1 = q0 + q0 / 2 ^ 4 in
    let q2 = q1 + q1 / 2 ^ 8 in
    let q3 = q2 + q2 / 2 ^ 16 in
    let q4 = q3 + q3 / 2 ^ 32 in
    let b = quotient_bounds n q0 q1 q2 q3 q4 h refl refl refl refl refl in
    divmod_step n (q4 / 8) b.0 b.1

-- The bases of the conversions.
abbrev pub IsBase : ℕ → Type 0
IsBase b = (b ≡ 2) ⊎ ((b ≡ 8) ⊎ ((b ≡ 10) ⊎ (b ≡ 16)))

pub split_digit_lem :
    (b n : ℕ)
    → IsBase b
    → n < 2 ^ 64
    → ((split_digit b n).0 ≡ n % b) × ((split_digit b n).1 ≡ n / b)
unfolding split_digit
split_digit_lem b n (inl e) h = rw e (omega (arith, and_mask 1 n))
split_digit_lem b n (inr (inl e)) h = rw e (omega (arith, and_mask 3 n))
split_digit_lem b n (inr (inr (inl e))) h = rw e (divmod10_lem n h)
split_digit_lem b n (inr (inr (inr e))) h = rw e (omega (arith, and_mask 4 n))

pub shrinks :
    (b n m : ℕ)
    → IsBase b
    → n < 2 * m
    → (n / b < m) × (n % b < b) × (n / b * b + n % b ≡ n) × (n / b ≤ n)
shrinks b n m (inl e) h = rw e (omega arith)
shrinks b n m (inr (inl e)) h = rw e (omega arith)
shrinks b n m (inr (inr (inl e))) h = rw e (omega arith)
shrinks b n m (inr (inr (inr e))) h = rw e (omega arith)

-- The number that digits stand for, the most significant one first.
unfoldable pub horner : ℕ → ℕ → List ℕ → ℕ
horner b acc [] = acc
horner b acc (d ∷ ds) = horner b (acc * b + d) ds

horner-append : (b acc d : ℕ) (ds : List ℕ) → horner b acc (ds ++ d ∷ []) ≡ horner b acc ds * b + d
unfolding horner
horner-append b acc d [] = refl
horner-append b acc d (e ∷ ds) = horner-append b (acc * b + e) d ds

unfoldable pub AllBelow : ℕ → List ℕ → Type 0
AllBelow b [] = Unit
AllBelow b (d ∷ ds) = (d < b) × AllBelow b ds

AllBelow-append : (b d : ℕ) (ds : List ℕ) → AllBelow b ds → d < b → AllBelow b (ds ++ d ∷ [])
unfolding AllBelow
AllBelow-append b d [] a h = (h, tt)
AllBelow-append b d (e ∷ ds) a h = (a.0, AllBelow-append b d ds a.1 h)

snoc :
    (f : ℕ → ℕ) (ds : List ℕ) (d : ℕ) (p : List ℕ) → map f ds ++ f d ∷ p ≡ map f (ds ++ d ∷ []) ++ p
snoc f [] d p = refl
snoc f (e ∷ ds) d p = ap (λ r. f e ∷ r) (snoc f ds d p)

-- What a run of the loop has put in front of `p`.
pub record Prints (upper : Bool) (b n fuel : ℕ) (p out : List ℕ) : Type 0 where
  pub digits : List ℕ
  pub chars : out ≡ map (digit upper) digits ++ p
  pub value : horner b 0 digits ≡ n
  pub below : AllBelow b digits
  pub short : length digits ≤ fuel

digit_loop-Prints :
    (fuel : ℕ) (upper : Bool) (b n : ℕ) (p : List ℕ)
    → IsBase b
    → n < 2 ^ fuel
    → n < 2 ^ 64
    → Prints upper b n fuel p (digit_loop fuel upper b n p)
unfolding digit_loop
digit_loop-Prints zero upper b n p base h w = record {
  digits = [];
  chars = refl;
  value = unfold horner in omega arith;
  below = unfold AllBelow in tt;
  short = omega arith;
}
digit_loop-Prints (suc fuel) upper b n p base h w = elim (Bool-cases (n == 0)) [
  | inl e ↦ rw e (record {
    digits = [];
    chars = refl;
    value = unfold horner in ground arith;
    below = unfold AllBelow in tt;
    short = omega arith;
  })
  | inr e ↦
      let s = split_digit_lem b n base w in
      let f = shrinks b n (2 ^ fuel) base (omega (arith, pow-suc 2 fuel)) in
      let r =
        digit_loop-Prints fuel upper b (n / b) (digit upper (n % b) ∷ p) base f.0
          (omega (arith, f.3)) in
      rw (e, s.0, s.1)
        (record {
          digits = r.digits ++ n % b ∷ [];
          chars = r.chars ∙ snoc (digit upper) r.digits (n % b) p;
          value =
              horner-append b 0 (n % b) r.digits ∙ (ap (λ (t : ℕ). t * b + n % b) r.value ∙ f.2);
          below = AllBelow-append b (n % b) r.digits r.below f.1;
          short = omega (arith, r.short, length-append r.digits (n % b ∷ []));
        })
]

-- For every base of the conversions and every 64-bit number, the characters that `do_number` stores
-- are at most 64 digits of the base, the buffer's size, and they stand for the number.
pub digits-Prints :
    (upper : Bool) (b n : ℕ)
    → IsBase b
    → n < 2 ^ 64
    → Prints upper b n 64 [] (digit_loop 64 upper b n [])
digits-Prints upper b n base h = digit_loop-Prints 64 upper b n [] base h h
