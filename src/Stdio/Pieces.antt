-- ===== src/Stdio/Pieces.antt =====
-- Formats as lists of pieces, for stdio.c: `vfprintf` on the text of a format does what its pieces
-- say.
use mox_boot_builder.Prelude.{
  ℕ, zero, suc, ◌+◌, ◌≤◌, ◌<◌, ◌≡◌, refl, ap, ◌∙◌, arith, Bool, true, false, List, [], ◌∷◌, ◌==◌,
  Option, none, some, length, length-append,
}
use mox_boot_builder.Stdio.Format.{
  Arg, Modifier, mod_none, mod_hh, mod_h, mod_l, mod_ll, Spec, before, if_converted, conversion,
  format_loop, vfprintf,
}
use mox_boot_builder.Stdio.Render.{
  Conversion, letter, decimal, opt, put_width, put_prec, put_modifier, put_spec, IsPrintable,
}
use mox_boot_builder.Stdio.Shown.{shown, convert-shown}
use mox_boot_builder.Stdio.Reads.{get_spec-put_spec}

-- A character that stands for itself, or a conversion.
pub data Piece : Type 0 where
  plain : ℕ → Piece
  conv : Spec → Conversion → Piece

-- The text of a format.
unfoldable pub render : List Piece → List ℕ
render [] = []
render (plain ch ∷ ps) = ch ∷ render ps
render (conv sp k ∷ ps) = b'%' ∷ put_spec sp (letter k ∷ render ps)

-- What the pieces write: each conversion takes its arguments in turn.
unfoldable pub meaning : List Piece → List Arg → Option (List ℕ × Bool)
meaning [] args = some ([], true)
meaning (plain ch ∷ ps) args = before (ch ∷ []) (meaning ps args)
meaning (conv sp k ∷ ps) args = if_converted (meaning ps) (shown k sp args)

abbrev pub AllPrintable : List Piece → Type 0
AllPrintable [] = Unit {0}
AllPrintable (plain ch ∷ ps) = ((ch == b'%') ≡ false) × AllPrintable ps
AllPrintable (conv sp k ∷ ps) = IsPrintable sp × AllPrintable ps

opt-le : (b : Bool) (ch : ℕ) (rest : List ℕ) → length rest ≤ length (opt b ch rest)
opt-le true ch rest = omega arith
opt-le false ch rest = omega arith

width-le : (w : Option ℕ) (rest : List ℕ) → length rest ≤ length (put_width w rest)
width-le none rest = omega arith
width-le (some n) rest = omega (arith, length-append (decimal n) rest)

prec-le : (w : Option ℕ) (rest : List ℕ) → length rest ≤ length (put_prec w rest)
prec-le none rest = omega arith
prec-le (some n) rest = omega (arith, length-append (decimal n) rest)

modifier-le : (m : Modifier) (rest : List ℕ) → length rest ≤ length (put_modifier m rest)
modifier-le mod_none rest = omega arith
modifier-le mod_hh rest = omega arith
modifier-le mod_h rest = omega arith
modifier-le mod_l rest = omega arith
modifier-le mod_ll rest = omega arith

spec-le : (sp : Spec) (rest : List ℕ) → length rest ≤ length (put_spec sp rest)
spec-le sp rest =
    let r1 = put_modifier sp.modifier rest in
    let r2 = put_prec sp.prec r1 in
    let r3 = put_width sp.width r2 in
    let r4 = opt sp.flags.sign b'+' r3 in
    let r5 = opt sp.flags.blank b' ' r4 in
    let r6 = opt sp.flags.adjust b'-' r5 in
    let r7 = opt sp.flags.zeropad b'0' r6 in
    omega (
      arith,
      modifier-le sp.modifier rest,
      prec-le sp.prec r1,
      width-le sp.width r2,
      opt-le sp.flags.sign b'+' r3,
      opt-le sp.flags.blank b' ' r4,
      opt-le sp.flags.adjust b'-' r5,
      opt-le sp.flags.zeropad b'0' r6,
      opt-le sp.flags.alt b'#' r7,
    )

loop-meaning :
    (fuel : ℕ) (ps : List Piece) (args : List Arg)
    → AllPrintable ps
    → length (render ps) < fuel
    → format_loop fuel (render ps) args ≡ meaning ps args
unfolding format_loop render meaning
loop-meaning zero ps args h enough = absurd (omega arith)
loop-meaning (suc fuel) [] args h enough = refl
loop-meaning (suc fuel) (plain ch ∷ ps) args (other, h) enough =
    rw other (ap (before (ch ∷ [])) (loop-meaning fuel ps args h (omega arith)))
loop-meaning (suc fuel) (conv sp k ∷ ps) args (printable, h) enough =
    let rest = render ps in
    let fits : length rest < fuel = omega (arith, spec-le sp (letter k ∷ rest)) in
    ap (conversion (format_loop fuel)) (get_spec-put_spec sp k rest args printable)
    ∙ ap (if_converted (format_loop fuel rest)) (convert-shown k sp args)
    ∙ after (shown k sp args) (λ more. loop-meaning fuel ps more h fits)
  where
    after :
        (o : Option (List ℕ × List Arg))
        → ((more : List Arg) → format_loop fuel (render ps) more ≡ meaning ps more)
        → if_converted (format_loop fuel (render ps)) o ≡ if_converted (meaning ps) o
    after none same = refl
    after (some (out, more)) same = ap (before out) (same more)

-- For every format that is written as characters other than `%` and as conversions with their
-- flags, width, precision and modifier, in that order and with widths and precisions below 2^31,
-- `vfprintf` ends and does what the pieces say, one after the other: it writes the characters, and
-- for each conversion what `do_number`, `do_char` or `do_justify` writes for the next argument, taken
-- with the sign and the number of bits that the letter and the modifier ask for.
pub vfprintf-render :
    (ps : List Piece) (args : List Arg)
    → AllPrintable ps
    → vfprintf (render ps) args ≡ meaning ps args
unfolding vfprintf
vfprintf-render ps args h = loop-meaning (length (render ps) + 1) ps args h (omega arith)
