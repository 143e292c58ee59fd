-- ===== src/Stdio/Render.antt =====
-- Formats as data, for stdio.c: `vfprintf` on the text of a format does what its pieces say.
use mathlib.Core.List.{map, append-nil}
use native.Mathlib.Nat.{pow-suc}
use mox_boot_builder.Prelude.{
  ℕ, zero, suc, ◌+◌, ◌-◌, ◌*◌, ◌/◌, ◌%◌, ◌^◌, ◌<◌, ◌≤◌, ◌≡◌, refl, sym, ap, ◌∙◌, arith, inl, inr,
  Bool-cases, Bool, true, false, List, [], ◌∷◌, ◌++◌, ◌==◌, if◌then◌else◌, Option, none, some,
}
use mox_boot_builder.Bits.{u32}
use mox_boot_builder.Stdio.{Flags, get_flags, isdigit, get_digits, digit_loop, digit}
use mox_boot_builder.Stdio.Digits.{
  digits-Prints, horner, AllBelow, split_digit_lem, shrinks, Prints, IsBase,
}
use mox_boot_builder.Stdio.Format.{Modifier, mod_none, mod_hh, mod_h, mod_l, mod_ll, Spec}

-- The characters that end a conversion.
pub data Conversion : Type 0 where
  percent decimal_d decimal_i unsigned hex big_hex binary octal pointer char string : Conversion

abbrev pub letter : Conversion → ℕ
letter percent = b'%'
letter decimal_d = b'd'
letter decimal_i = b'i'
letter unsigned = b'u'
letter hex = b'x'
letter big_hex = b'X'
letter binary = b'b'
letter octal = b'o'
letter pointer = b'p'
letter char = b'c'
letter string = b's'

-- A number in decimal, as stdio.c prints it.
abbrev pub decimal : ℕ → List ℕ
decimal n = if n == 0 then b'0' ∷ [] else digit_loop 64 false 10 n []

abbrev pub opt : Bool → ℕ → List ℕ → List ℕ
opt true ch rest = ch ∷ rest
opt false ch rest = rest

-- The text of the parts of a conversion, in front of what follows.
abbrev pub put_flags : Flags → List ℕ → List ℕ
put_flags f rest =
    opt f.alt b'#'
      (opt f.zeropad b'0' (opt f.adjust b'-' (opt f.blank b' ' (opt f.sign b'+' rest))))

abbrev pub put_width : Option ℕ → List ℕ → List ℕ
put_width none rest = rest
put_width (some n) rest = decimal n ++ rest

abbrev pub put_prec : Option ℕ → List ℕ → List ℕ
put_prec none rest = rest
put_prec (some n) rest = b'.' ∷ (decimal n ++ rest)

abbrev pub put_modifier : Modifier → List ℕ → List ℕ
put_modifier mod_none rest = rest
put_modifier mod_hh rest = b'h' ∷ b'h' ∷ rest
put_modifier mod_h rest = b'h' ∷ rest
put_modifier mod_l rest = b'l' ∷ rest
put_modifier mod_ll rest = b'l' ∷ b'l' ∷ rest

-- A width of 0 would be read as a flag; numbers are those that an `int` holds.
abbrev pub IsWidth : Option ℕ → Type 0
IsWidth none = Unit {0}
IsWidth (some n) = (0 < n) × (n < 2 ^ 31)

abbrev pub IsPrec : Option ℕ → Type 0
IsPrec none = Unit {0}
IsPrec (some n) = n < 2 ^ 31

-- What begins with no flag, or with no digit.
abbrev pub NoFlag : List ℕ → Type 0
NoFlag rest = (f : Flags) → get_flags rest f ≡ (f, rest)

abbrev pub NoDigit : List ℕ → Type 0
NoDigit rest = (n : ℕ) → get_digits n rest ≡ (n, rest)

pub is_digit : (k : ℕ) → k < 10 → isdigit (digit false k) ≡ true
unfolding isdigit
is_digit k h = ground arith

horner-ge : (acc : ℕ) (ds : List ℕ) → acc ≤ horner 10 acc ds
unfolding horner
horner-ge acc [] = omega arith
horner-ge acc (k ∷ ds) = omega (arith, horner-ge (acc * 10 + k) ds)

digits-back :
    (acc : ℕ) (ds rest : List ℕ)
    → AllBelow 10 ds
    → horner 10 acc ds < 2 ^ 31
    → NoDigit rest
    → get_digits acc (map (digit false) ds ++ rest) ≡ (horner 10 acc ds, rest)
unfolding get_digits horner AllBelow
digits-back acc [] rest a small stop = stop acc
digits-back acc (k ∷ ds) rest a small stop =
    let shifted : acc * 10 + (digit false k - b'0') ≡ acc * 10 + k = ground (arith, a.0) in
    let value : u32 (acc * 10 + (digit false k - b'0')) ≡ acc * 10 + k =
      ap (λ (t : ℕ). u32 t) shifted ∙ omega (arith, horner-ge (acc * 10 + k) ds) in
    rw (is_digit k a.0, get_digits)
      (ap (λ (t : ℕ). get_digits t (map (digit false) ds ++ rest)) value
        ∙ digits-back (acc * 10 + k) ds rest a.1 small stop)

-- The digits of a number are read back.
pub decimal-back :
    (n : ℕ) (rest : List ℕ)
    → n < 2 ^ 31
    → NoDigit rest
    → get_digits 0 (decimal n ++ rest) ≡ (n, rest)
unfolding isdigit
decimal-back n rest h stop = elim (Bool-cases (n == 0)) [
  | inl e ↦ rw e (zero_back (ground arith))
  | inr e ↦ rw e (printed (digits-Prints false 10 n (inr (inr (inl refl))) (omega arith)))
]
  where
    zero_back : n ≡ 0 → get_digits 0 (b'0' ∷ rest) ≡ (n, rest)
    zero_back z = unfold get_digits in (stop 0 ∙ ap (λ (t : ℕ). (t, rest)) (sym z))

    printed :
        Prints false 10 n 64 [] (digit_loop 64 false 10 n [])
        → get_digits 0 (digit_loop 64 false 10 n [] ++ rest) ≡ (n, rest)
    printed r =
        ap (λ ds. get_digits 0 (ds ++ rest)) (r.chars ∙ append-nil (map (digit false) r.digits))
        ∙ digits-back 0 r.digits rest r.below (omega (arith, r.value)) stop
        ∙ ap (λ (t : ℕ). (t, rest)) r.value

no_digits : (fuel : ℕ) (stored : List ℕ) → digit_loop fuel false 10 0 stored ≡ stored
unfolding digit_loop
no_digits zero stored = refl
no_digits (suc fuel) stored = refl

-- What begins with a digit that is not 0.
abbrev pub StartsHigh : List ℕ → Type 0
StartsHigh out = (k : ℕ) × (ds : List ℕ) × (0 < k) × (k < 10) × (out ≡ digit false k ∷ ds)

-- The first digit of a number that is not 0 is not 0 either.
pub first_digit :
    (fuel n : ℕ) (stored : List ℕ)
    → 0 < n
    → n < 2 ^ fuel
    → n < 2 ^ 64
    → StartsHigh (digit_loop fuel false 10 n stored)
unfolding digit_loop
first_digit zero n stored pos h w = absurd (omega arith)
first_digit (suc fuel) n stored pos h w =
    let base : IsBase 10 = inr (inr (inl refl)) in
    let sd = split_digit_lem 10 n base w in
    let f = shrinks 10 n (2 ^ fuel) base (omega (arith, pow-suc 2 fuel)) in
    let some_left : (n == 0) ≡ false = ground arith in
    let more = digit false (n % 10) ∷ stored in
    rw (some_left, sd.0, sd.1)
      (elim (Bool-cases (n / 10 == 0)) [
        | inl e ↦
            let last : n / 10 ≡ 0 = ground arith in
            (
              n % 10,
              stored,
              omega arith,
              f.1,
              ap (λ (m : ℕ). digit_loop fuel false 10 m more) last ∙ no_digits fuel more,
            )
        | inr e ↦ first_digit fuel (n / 10) more (ground arith) f.0 (omega (arith, f.3))
      ])

-- What stands between `%` and the conversion's character.
abbrev pub put_spec : Spec → List ℕ → List ℕ
put_spec sp rest =
    put_flags sp.flags (put_width sp.width (put_prec sp.prec (put_modifier sp.modifier rest)))

abbrev pub IsPrintable : Spec → Type 0
IsPrintable sp = IsWidth sp.width × IsPrec sp.prec
