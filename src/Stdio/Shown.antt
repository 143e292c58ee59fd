-- ===== src/Stdio/Shown.antt =====
-- What each conversion of stdio.c writes, by its letter and its modifier.
use mox_boot_builder.Prelude.{
  ℕ, ◌-◌, ◌%◌, ◌^◌, ltb, if◌then◌else◌, inl, inr, Bool-cases, ◌≡◌, refl, ap, ◌∙◌, true, false, List,
  [], ◌∷◌, Option, none, some,
}
use mox_boot_builder.Stdio.{do_number}
use mox_boot_builder.Stdio.Format.{
  Arg, num, text, Modifier, mod_none, mod_hh, mod_h, mod_l, mod_ll, Spec, convert, or_zero,
  arg_bits, put_signed, put_unsigned, do_char, do_justify,
}
use mox_boot_builder.Stdio.Render.{
  Conversion, percent, decimal_d, decimal_i, unsigned, hex, big_hex, binary, octal, pointer, char,
  string, letter,
}

-- A number as an `int` of 32 or 64 bits, in decimal.
abbrev in_decimal : ℕ → Spec → ℕ → ℕ → List ℕ
in_decimal ch sp bits n =
    let x = n % 2 ^ bits in
    if ltb x (2 ^ (bits - 1))
    then do_number sp.flags (or_zero sp.width) sp.prec ch x false
    else do_number sp.flags (or_zero sp.width) sp.prec ch (2 ^ bits - x) true

abbrev in_base : ℕ → Spec → ℕ → ℕ → List ℕ
in_base ch sp bits n = do_number sp.flags (or_zero sp.width) sp.prec ch (n % 2 ^ bits) false

-- A number has 64 bits with the modifier `ll`, and else 32.
abbrev wide : Modifier → ℕ
wide mod_none = 32
wide mod_hh = 32
wide mod_h = 32
wide mod_l = 32
wide mod_ll = 64

abbrev take_number : (ℕ → List ℕ) → List Arg → Option (List ℕ × List Arg)
take_number f (num n ∷ more) = some (f n, more)
take_number f other = none

abbrev take_text : (List ℕ → List ℕ) → List Arg → Option (List ℕ × List Arg)
take_text f (text t ∷ more) = some (f t, more)
take_text f other = none

-- What each conversion writes, and the arguments behind the one that it takes.
unfoldable pub shown : Conversion → Spec → List Arg → Option (List ℕ × List Arg)
shown percent sp args = some (b'%' ∷ [], args)
shown decimal_d sp args = take_number (in_decimal b'd' sp (wide sp.modifier)) args
shown decimal_i sp args = take_number (in_decimal b'i' sp (wide sp.modifier)) args
shown unsigned sp args = take_number (in_base b'u' sp (wide sp.modifier)) args
shown hex sp args = take_number (in_base b'x' sp (wide sp.modifier)) args
shown big_hex sp args = take_number (in_base b'X' sp (wide sp.modifier)) args
shown binary sp args = take_number (in_base b'b' sp (wide sp.modifier)) args
shown octal sp args = take_number (in_base b'o' sp (wide sp.modifier)) args
shown pointer sp args = take_number (in_base b'p' sp 32) args
shown char sp args = take_number (λ n. do_char sp.flags.adjust (or_zero sp.width) (n % 256)) args
shown string sp args = take_text (λ t. do_justify sp.flags.adjust (or_zero sp.width) t none) args

bits-wide : (m : Modifier) → arg_bits m ≡ wide m
bits-wide mod_none = refl
bits-wide mod_hh = refl
bits-wide mod_h = refl
bits-wide mod_l = refl
bits-wide mod_ll = refl

put_signed-shown :
    (ch : ℕ) (sp : Spec) (args : List Arg)
    → put_signed sp ch args ≡ take_number (in_decimal ch sp (wide sp.modifier)) args
put_signed-shown ch sp [] = refl
put_signed-shown ch sp (text t ∷ more) = refl
put_signed-shown ch sp (num n ∷ more) =
    let b = wide sp.modifier in
    rw (bits-wide sp.modifier)
      (elim (Bool-cases (ltb (n % 2 ^ b) (2 ^ (b - 1)))) [ inl e ↦ rw e refl | inr e ↦ rw e refl ])

put_unsigned-shown :
    (ch bits : ℕ) (sp : Spec) (args : List Arg)
    → put_unsigned sp ch bits args ≡ take_number (in_base ch sp bits) args
put_unsigned-shown ch bits sp [] = refl
put_unsigned-shown ch bits sp (text t ∷ more) = refl
put_unsigned-shown ch bits sp (num n ∷ more) = refl

in_base-shown :
    (ch : ℕ) (sp : Spec) (args : List Arg)
    → put_unsigned sp ch (arg_bits sp.modifier) args
      ≡ take_number (in_base ch sp (wide sp.modifier)) args
in_base-shown ch sp args =
    put_unsigned-shown ch (arg_bits sp.modifier) sp args
    ∙ ap (λ (b : ℕ). take_number (in_base ch sp b) args) (bits-wide sp.modifier)

pub convert-shown :
    (k : Conversion) (sp : Spec) (args : List Arg) → convert (letter k) sp args ≡ shown k sp args
unfolding convert shown
convert-shown percent sp args = refl
convert-shown decimal_d sp args = put_signed-shown b'd' sp args
convert-shown decimal_i sp args = put_signed-shown b'i' sp args
convert-shown unsigned sp args = in_base-shown b'u' sp args
convert-shown hex sp args = in_base-shown b'x' sp args
convert-shown big_hex sp args = in_base-shown b'X' sp args
convert-shown binary sp args = in_base-shown b'b' sp args
convert-shown octal sp args = in_base-shown b'o' sp args
convert-shown pointer sp args = put_unsigned-shown b'p' 32 sp args
convert-shown char sp [] = refl
convert-shown char sp (text t ∷ more) = refl
convert-shown char sp (num n ∷ more) = refl
convert-shown string sp [] = refl
convert-shown string sp (text t ∷ more) = refl
convert-shown string sp (num n ∷ more) = refl
