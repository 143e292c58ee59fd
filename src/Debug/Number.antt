-- ===== src/Debug/Number.antt =====
-- `_number` of debug.c reads back what stdio.c prints.
use mathlib.Core.List.{map, append-nil}
use mox_boot_builder.Prelude.{
  ℕ, ◌+◌, ◌-◌, ◌*◌, ◌^◌, ◌≤◌, ◌<◌, ◌≡◌, ◌⊎◌, inl, inr, refl, ap, ◌∙◌, subst, sym, arith, Bool, true,
  false, ◌&&◌, ◌||◌, Bool-cases, Option, none, some, List, [], ◌∷◌, max, leb, ◌==◌, if◌then◌else◌,
}
use mox_boot_builder.Bits.{u32}
use mox_boot_builder.Stdio.{Flags, digit, digit_loop, do_number, paddings, prefix_of, base_of}
use mox_boot_builder.Stdio.Digits.{horner, AllBelow, IsBase, digits-Prints}

-- The `switch` of `_number`; `none` is -1.
unfoldable pub digit_value : ℕ → Option ℕ
digit_value c =
    if leb b'0' c && leb c b'9'
    then some (c - b'0')
    else if leb b'a' c && leb c b'f'
    then some (c - b'a' + 10)
    else if leb b'A' c && leb c b'F'
    then some (c - b'A' + 10)
    else none

-- The loop of `_number`; `none` is the return of -1.
unfoldable pub number_loop : ℕ → ℕ → List ℕ → Option ℕ
number_loop base res [] = some res
number_loop base res (c ∷ p) = elim (digit_value c) [
  | none ↦ none
  | some cur ↦
      let rest = number_loop base (u32 (u32 (res * base) + cur)) p in
      if leb base cur then none else rest
]

-- `p[0] == '0' && (p[1] == 'x' || p[1] == 'X')`, and `p += 2`
unfoldable pub strip_prefix : List ℕ → List ℕ
strip_prefix (c ∷ d ∷ p) = if c == b'0' && (d == b'x' || d == b'X') then p else c ∷ d ∷ p
strip_prefix p = p

-- `_number`
unfoldable pub number_of : ℕ → List ℕ → Option ℕ
unfolding number_loop strip_prefix
number_of base str = number_loop base 0 (if base == 16 then strip_prefix str else str)

digit_value-digit : (upper : Bool) (d : ℕ) → d < 16 → digit_value (digit upper d) ≡ some d
unfolding digit_value
digit_value-digit true d h = ground arith
digit_value-digit false d h = ground arith

le-horner : (b acc : ℕ) (ds : List ℕ) → 0 < b → acc ≤ horner b acc ds
unfolding horner
le-horner b acc [] h = omega arith
le-horner b acc (d ∷ ds) h = grind (arith, le-horner b (acc * b + d) ds h)

number_loop-cons :
    (base res c cur : ℕ) (p : List ℕ)
    → digit_value c ≡ some cur
    → leb base cur ≡ false
    → number_loop base res (c ∷ p) ≡ number_loop base (u32 (u32 (res * base) + cur)) p
unfolding number_loop
number_loop-cons base res c cur p e l = rw (e, number_loop) (rw l)

number_loop-digits :
    (upper : Bool) (b acc : ℕ) (ds : List ℕ)
    → 0 < b
    → b ≤ 16
    → AllBelow b ds
    → horner b acc ds < 2 ^ 32
    → number_loop b acc (map (digit upper) ds) ≡ some (horner b acc ds)
unfolding number_loop horner AllBelow
number_loop-digits upper b acc [] pos small h fits = refl
number_loop-digits upper b acc (d ∷ ds) pos small h fits =
    let bound = le-horner b (acc * b + d) ds pos in
    let exact : u32 (u32 (acc * b) + d) ≡ acc * b + d = omega arith in
    let ok : leb b d ≡ false = ground arith in
    number_loop-cons b acc (digit upper d) d (map (digit upper) ds)
      (digit_value-digit upper d (omega arith)) ok
    ∙ ap (λ (k : ℕ). number_loop b k (map (digit upper) ds)) exact
    ∙ number_loop-digits upper b (acc * b + d) ds pos small h.1 fits

-- What the digits of a number in base 10 or 16 begin with is not the prefix `0x`.
strip_prefix-digits :
    (upper : Bool) (ds : List ℕ)
    → AllBelow 16 ds
    → strip_prefix (map (digit upper) ds) ≡ map (digit upper) ds
unfolding strip_prefix AllBelow
strip_prefix-digits upper [] h = refl
strip_prefix-digits upper (d ∷ []) h = refl
strip_prefix-digits true (d ∷ e ∷ ds) h = ground arith
strip_prefix-digits false (d ∷ e ∷ ds) h = ground arith

-- `printf` with `%x`, `%X` or `%u`, without flags, width and precision.
abbrev pub no_flags : Flags
no_flags = record { alt = false; zeropad = false; adjust = false; blank = false; sign = false }

abbrev pub plain : ℕ → ℕ → List ℕ
plain spec n = do_number no_flags 0 none spec n false

-- The base in which `_number` reads what the conversion prints.
abbrev pub base_for : ℕ → ℕ
base_for spec = if spec == b'u' then 10 else 16

abbrev pub IsPlain : ℕ → Type 0
IsPlain spec = (spec ≡ b'u') ⊎ ((spec ≡ b'x') ⊎ (spec ≡ b'X'))

paddings-none : (others len : ℕ) → paddings no_flags 0 none others len ≡ (0, 0)
unfolding paddings
paddings-none others len =
    let gap : max 0 (len + others) - (len + others) ≡ 0 = omega arith in ap (λ (k : ℕ). (0, k)) gap

prefix-none : (spec : ℕ) → IsPlain spec → prefix_of spec false ≡ []
prefix-none spec (inl e) = rw e
prefix-none spec (inr (inl e)) = rw e
prefix-none spec (inr (inr e)) = rw e

base-for : (spec : ℕ) → IsPlain spec → base_of spec ≡ base_for spec
base-for spec (inl e) = rw e
base-for spec (inr (inl e)) = rw e
base-for spec (inr (inr e)) = rw e

plain-digits :
    (spec n : ℕ)
    → IsPlain spec
    → plain spec n
      ≡ (if n == 0 then b'0' ∷ [] else digit_loop 64 (spec == b'X') (base_for spec) n [])
unfolding do_number
plain-digits spec n h = rw (prefix-none spec h, base-for spec h, paddings-none) refl

base_for-cases : (spec : ℕ) → IsPlain spec → (base_for spec ≡ 10) ⊎ (base_for spec ≡ 16)
base_for-cases spec (inl e) = inl (rw e refl)
base_for-cases spec (inr (inl e)) = inr (rw e refl)
base_for-cases spec (inr (inr e)) = inr (rw e refl)

number_of-digits :
    (upper : Bool) (b : ℕ) (ds : List ℕ)
    → (b ≡ 10) ⊎ (b ≡ 16)
    → AllBelow b ds
    → horner b 0 ds < 2 ^ 32
    → number_of b (map (digit upper) ds) ≡ some (horner b 0 ds)
unfolding number_of
number_of-digits upper b ds (inl e) h fits =
    rw e (number_loop-digits upper 10 0 ds (omega arith) (omega arith) (rw e at h) (rw e at fits))
number_of-digits upper b ds (inr e) h fits = rw e (
    ap (number_loop 16 0) (strip_prefix-digits upper ds (rw e at h))
    ∙ number_loop-digits upper 16 0 ds (omega arith) (omega arith) (rw e at h) (rw e at fits))

number_of-zero : (b : ℕ) → (b ≡ 10) ⊎ (b ≡ 16) → number_of b (b'0' ∷ []) ≡ some 0
unfolding number_of number_loop digit_value
number_of-zero b (inl e) = rw e refl
number_of-zero b (inr e) = rw e refl

-- What `printf` prints for a 32-bit number with `%u`, `%x` or `%X`, `_number` reads back: in base 10
-- and in base 16, also for 0, and with no mistake about the prefix `0x`.
pub number_of-plain :
    (spec n : ℕ) → IsPlain spec → n < 2 ^ 32 → number_of (base_for spec) (plain spec n) ≡ some n
number_of-plain spec n h fits =
    let b = base_for spec in
    let upper = spec == b'X' in
    let bases = base_for-cases spec h in
    ap (number_of b) (plain-digits spec n h) ∙ elim (Bool-cases (n == 0)) [
      | inl e ↦ rw e (number_of-zero b bases ∙ ap some (zero-eq n e))
      | inr e ↦
          let printed = digits-Prints upper b n (wide b bases) (omega arith) in
          let ds = printed.digits in
          let chars = printed.chars ∙ append-nil (map (digit upper) ds) in
          let small : horner b 0 ds < 2 ^ 32 = subst (λ m. m < 2 ^ 32) (sym printed.value) fits in
          rw e (
            ap (number_of b) chars
            ∙ number_of-digits upper b ds bases printed.below small
            ∙ ap some printed.value)
    ]
  where
    zero-eq : (n : ℕ) → (n == 0) ≡ true → 0 ≡ n
    zero-eq n e = ground arith

    wide : (b : ℕ) → (b ≡ 10) ⊎ (b ≡ 16) → IsBase b
    wide b (inl e) = inr (inr (inl e))
    wide b (inr e) = inr (inr (inr e))
