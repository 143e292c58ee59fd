-- ===== src/Bignum/Modulo.antt =====
-- `bn_modulo` and `bn_addmod` of crypto.c end, and reduce.
use native.Mathlib.Nat.{mod-eq_of_lt, mod-eq-sub-mod}
use mox_boot_builder.Prelude.{
  ℕ, zero, suc, ◌+◌, ◌-◌, ◌*◌, ◌%◌, ◌^◌, ◌≤◌, ◌<◌, ◌≡◌, refl, subst, ◌⊎◌, ap, ◌∙◌, sym, arith, List,
  [], ◌∷◌, length, ltb, Bool-cases, inl, inr, Option, some,
}
use mox_boot_builder.Bits.{sub32}
use mox_boot_builder.Bignum.{
  sub_words, borrow_of, bn_cmp, is_negative, add_words, bn_modulo, bn_addmod,
}
use mox_boot_builder.Bignum.Value.{value, scale, AllWords, value-lt-scale}
use mox_boot_builder.Bignum.Sum.{add_words-IsSum}
use mox_boot_builder.Bignum.Compare.{order_of, bn_cmp-order}

sub_round :
    (d m c : ℕ)
    → d < 2 ^ 32
    → m < 2 ^ 32
    → c ≤ 1
    → (sub32 (sub32 d m) c + m + c ≡ d + 2 ^ 32 * borrow_of d m c)
      × (borrow_of d m c ≤ 1)
      × (sub32 (sub32 d m) c < 2 ^ 32)
sub_round d m c hd hm hc = ground arith

pub record IsDifference (c : ℕ) (dst m : List ℕ) (r : List ℕ × ℕ) : Type 0 where
  pub sum : value r.0 + value m + c ≡ value dst + scale (length dst) * r.1
  pub words : AllWords r.0
  pub size : length r.0 ≡ length dst
  pub borrow : r.1 ≤ 1

sub_words-IsDifference :
    (c : ℕ) (dst m : List ℕ)
    → AllWords dst
    → AllWords m
    → length dst ≡ length m
    → c ≤ 1
    → IsDifference c dst m (sub_words c dst m)
unfolding sub_words
sub_words-IsDifference c [] [] hd hm e k = omega arith
sub_words-IsDifference c [] (w ∷ m) hd hm e k = absurd (omega arith)
sub_words-IsDifference c (d ∷ dst) [] hd hm e k = absurd (omega arith)
sub_words-IsDifference c (d ∷ dst) (w ∷ m) hd hm e k =
    let round = sub_round d w c hd.0 hm.0 k in
    let rest = sub_words-IsDifference (borrow_of d w c) dst m hd.1 hm.1 (omega arith) round.1 in
    record {
      sum = omega (arith, round.0, ap (λ (t : ℕ). 2 ^ 32 * t) rest.sum);
      words = (round.2, rest.words);
      size = ap suc rest.size;
      borrow = rest.borrow;
    }

-- Subtracting a number that is not greater.
subtracts :
    (dst m : List ℕ)
    → AllWords dst
    → AllWords m
    → length dst ≡ length m
    → value m ≤ value dst
    → (value (sub_words 0 dst m).0 ≡ value dst - value m)
      × AllWords (sub_words 0 dst m).0
      × (length (sub_words 0 dst m).0 ≡ length dst)
subtracts dst m hd hm e le =
    let r = sub_words-IsDifference 0 dst m hd hm e (omega arith) in
    let out = (sub_words 0 dst m).0 in
    let bound : value out < scale (length dst) =
      subst (λ n. value out < scale n) r.size (value-lt-scale out r.words) in
    let none_left : (sub_words 0 dst m).1 ≡ 0 = elim (zero_or_one (sub_words 0 dst m).1 r.borrow) [
      | inl z ↦ z
      | inr o ↦ absurd (omega (arith, r.sum, bound, ap (λ (t : ℕ). scale (length dst) * t) o))
    ] in
    (omega (arith, r.sum, ap (λ (t : ℕ). scale (length dst) * t) none_left), r.words, r.size)
  where
    zero_or_one : (n : ℕ) → n ≤ 1 → (n ≡ 0) ⊎ (n ≡ 1)
    zero_or_one n h = omega arith

pub negative-order : (x y : ℕ) → is_negative (order_of x y) ≡ ltb x y
negative-order x y = ground arith

-- What a reduction leaves.
abbrev pub Reduces : ℕ → List ℕ → Option (List ℕ) → Type 0
Reduces x m r =
    (out : List ℕ) × (r ≡ some out) × (value out ≡ x % value m) × AllWords out × (length out ≡ 17)

bn_modulo-Reduces :
    (fuel : ℕ) (dst m : List ℕ)
    → AllWords dst
    → AllWords m
    → length dst ≡ 17
    → length m ≡ 17
    → value dst < fuel * value m
    → Reduces (value dst) m (bn_modulo fuel dst m)
unfolding bn_modulo
bn_modulo-Reduces zero dst m hd hm ld lm h = absurd (omega arith)
bn_modulo-Reduces (suc fuel) dst m hd hm ld lm h =
    let test : is_negative (bn_cmp dst m) ≡ ltb (value dst) (value m) =
      ap is_negative (bn_cmp-order dst m hd hm ld lm) ∙ negative-order (value dst) (value m) in
    elim (Bool-cases (ltb (value dst) (value m))) [
      | inl less ↦
          let lt : value dst < value m = ground arith in
          rw (test, less) (dst, refl, sym (mod-eq_of_lt lt), hd, ld)
      | inr other ↦
          let le : value m ≤ value dst = ground arith in
          let s = subtracts dst m hd hm (ld ∙ sym lm) le in
          let enough : value dst - value m < fuel * value m = grind arith in
          let (out, p, v, w, l) =
            bn_modulo-Reduces fuel (sub_words 0 dst m).0 m s.1 hm (s.2 ∙ ld) lm (rw s.0 enough) in
          rw (test, other)
            (out, p, v ∙ ap (λ (t : ℕ). t % value m) s.0 ∙ sym (mod-eq-sub-mod le), w, l)
    ]

-- `bn_addmod` ends and stores the sum modulo the modulus, for arrays of seventeen words, a modulus
-- that is not 0 and a sum that fits: one round of subtraction more than the quotient is enough.
pub bn_addmod_lem :
    (fuel : ℕ) (dst src m : List ℕ)
    → AllWords dst
    → AllWords src
    → AllWords m
    → length dst ≡ 17
    → length src ≡ 17
    → length m ≡ 17
    → value dst + value src < scale 17
    → value dst + value src < fuel * value m
    → (out : List ℕ) × (bn_addmod fuel dst src m ≡ some out)
      × (value out ≡ (value dst + value src) % value m)
      × AllWords out
      × (length out ≡ 17)
unfolding bn_addmod
bn_addmod_lem fuel dst src m hd hs hm ld ls lm fits h =
    let r = add_words-IsSum 0 dst src hd hs (ld ∙ sym ls) (omega arith) in
    let sum = add_words 0 dst src in
    let width : scale (length dst) * sum.1 ≡ scale 17 * sum.1 =
      ap (λ (n : ℕ). scale n * sum.1) ld in
    let exact : value sum.0 ≡ value dst + value src = omega (arith, r.sum, width, r.carry, fits) in
    let (out, p, v, w, l) =
      bn_modulo-Reduces fuel sum.0 m r.words hm (r.size ∙ ld) lm (omega (arith, exact, h)) in
    (out, p, v ∙ ap (λ (t : ℕ). t % value m) exact, w, l)
