-- ===== src/Stdio/Tests.antt =====
-- The digits of stdio.c at concrete inputs.
use mox_boot_builder.Prelude.{◌≡◌, inr, refl, arith, true, [], ◌∷◌, List, none, some}
use mox_boot_builder.Stdio.{
  divmod10, digit_loop, do_number, get_flags, get_digits, isdigit, paddings, split_digit,
}
use mox_boot_builder.Stdio.Digits.{Prints, digits-Prints}
use mox_boot_builder.Stdio.Format.{
  Arg, num, text, mod_none, no_flags, vfprintf, format_loop, get_spec, get_number, get_prec,
  get_modifier, convert, do_justify,
}
use mox_boot_builder.Stdio.Render.{hex, string}
use mox_boot_builder.Stdio.Pieces.{Piece, plain, conv, render, meaning, vfprintf-render}

-- 0xbeef in base 16, least significant digit first as it is stored.
digits-Prints_example : Prints true 16 48879 64 [] (digit_loop 64 true 16 48879 [])
digits-Prints_example = digits-Prints true 16 48879 (inr (inr (inr refl))) (omega arith)

-- `n=%#06x %s`
abbrev format : List Piece
format =
    plain b'n'
    ∷ plain b'='
    ∷ conv
        (record {
          flags = record no_flags { alt = true; zeropad = true };
          width = some 6;
          prec = none;
          modifier = mod_none;
        })
        hex
    ∷ plain b' '
    ∷ conv (record { flags = no_flags; width = none; prec = none; modifier = mod_none }) string
    ∷ []

abbrev format_args : List Arg
format_args = num 48879 ∷ text (b'o' ∷ b'k' ∷ []) ∷ []

format_text :
    render format ≡ b'n' ∷ b'=' ∷ b'%' ∷ b'#' ∷ b'0' ∷ b'6' ∷ b'x' ∷ b' ' ∷ b'%' ∷ b's' ∷ []
unfolding render digit_loop split_digit divmod10
format_text = refl

-- `n=0xbeef ok`
printed :
    vfprintf (render format) format_args
    ≡ some (b'n' ∷ b'=' ∷ b'0' ∷ b'x' ∷ b'b' ∷ b'e' ∷ b'e' ∷ b'f' ∷ b' ' ∷ b'o' ∷ b'k' ∷ [], true)
unfolding vfprintf format_loop render digit_loop split_digit divmod10 get_spec get_flags get_number
    isdigit get_digits get_prec get_modifier convert do_number paddings do_justify
printed = refl

vfprintf-render_example : vfprintf (render format) format_args ≡ meaning format format_args
vfprintf-render_example =
    vfprintf-render format format_args
      (refl, (refl, (((omega arith, omega arith), tt), (refl, ((tt, tt), tt)))))
