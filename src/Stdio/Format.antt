-- ===== src/Stdio/Format.antt =====
-- The formats of stdio.c: `vfprintf` and what it calls but the conversion of numbers. The stream is
-- not null. A format that asks for an argument that was not passed gives none; the code's behaviour
-- is undefined there.
use mox_boot_builder.Prelude.{
  ℕ, zero, suc, ◌+◌, ◌-◌, ◌^◌, ◌%◌, Bool, true, false, ◌||◌, List, [], ◌∷◌, ◌++◌, ◌==◌, ltb,
  if◌then◌else◌, Option, none, some, length, replicate,
}
use mox_boot_builder.Bits.{u8, u32}
use mox_boot_builder.Stdio.{Flags, get_flags, isdigit, get_digits, do_number}

-- An argument of the variable list: the bits of a number, or a text.
pub data Arg : Type 0 where
  num : ℕ → Arg
  text : List ℕ → Arg

-- `enum mod`
pub data Modifier : Type 0 where
  mod_none mod_hh mod_h mod_l mod_ll : Modifier

abbrev pub no_flags : Flags
no_flags = record { alt = false; zeropad = false; adjust = false; blank = false; sign = false }

-- An `int`, which is 32 bits wide, as a number that is not negative; none is below 0.
abbrev pub int_of : ℕ → Option ℕ
int_of n = if ltb (u32 n) (2 ^ 31) then some (u32 n) else none

-- `va_arg(ap, int)` of the copy of the argument list that `get_number` has: `va_list` is passed by
-- value, so that the caller's list does not advance.
abbrev pub next_int : List ℕ → List Arg → Option (Option ℕ × List ℕ × List Arg)
next_int fmt (num n ∷ more) = some (int_of n, fmt, num n ∷ more)
next_int fmt other = none

-- `get_number`: the number, the rest of the format and of the arguments. All numbers below 0 are
-- none, as what follows makes no difference between them.
unfoldable pub get_number : List ℕ → List Arg → Option (Option ℕ × List ℕ × List Arg)
get_number [] args = some (none, [], args)
get_number (c ∷ fmt) args =
    if c == b'*'
    then next_int fmt args
    else if isdigit c
    then (let (n, rest) = get_digits 0 (c ∷ fmt) in some (int_of n, rest, args))
    else some (none, c ∷ fmt, args)

-- A letter that may stand twice.
abbrev pub once_or_twice : ℕ → Modifier → Modifier → List ℕ → Modifier × List ℕ
once_or_twice c double single [] = (single, [])
once_or_twice c double single (d ∷ fmt) = if d == c then (double, fmt) else (single, d ∷ fmt)

unfoldable pub get_modifier : List ℕ → Modifier × List ℕ
get_modifier [] = (mod_none, [])
get_modifier (c ∷ fmt) =
    if c == b'h'
    then once_or_twice b'h' mod_hh mod_h fmt
    else if c == b'l'
    then once_or_twice b'l' mod_ll mod_l fmt
    else if c == b'q'
    then (mod_ll, fmt)
    else (mod_none, c ∷ fmt)

-- `do_justify`; `len` is the argument of that name, none for -1. A width below 0 counts as 0.
unfoldable pub do_justify : Bool → ℕ → List ℕ → Option ℕ → List ℕ
do_justify true width str len = str ++ replicate (width - length str) b' '
do_justify false width str none = replicate (width - length str) b' ' ++ str
do_justify false width str (some len) = replicate (width - len) b' ' ++ str

-- `do_char`; the text of a NUL is empty, but its length is given as 1.
unfoldable pub do_char : Bool → ℕ → ℕ → List ℕ
do_char left width c = do_justify left width (if c == 0 then [] else c ∷ []) (some 1)

-- What stands between `%` and the conversion's character.
pub record Spec : Type 0 where
  pub flags : Flags
  pub width : Option ℕ
  pub prec : Option ℕ
  pub modifier : Modifier

abbrev pub or_zero : Option ℕ → ℕ
or_zero none = 0
or_zero (some n) = n

-- The width in bits of the number that a modifier asks for; `long` has 32 bits.
abbrev pub arg_bits : Modifier → ℕ
arg_bits mod_ll = 64
arg_bits other = 32

-- A number as the signed one of `bits` bits: whether it is below 0, and its size.
abbrev pub signed : ℕ → ℕ → Bool × ℕ
signed bits n =
    let x = n % 2 ^ bits in if ltb x (2 ^ (bits - 1)) then (false, x) else (true, 2 ^ bits - x)

abbrev pub put_signed : Spec → ℕ → List Arg → Option (List ℕ × List Arg)
put_signed spec c (num n ∷ more) =
    let (negative, size) = signed (arg_bits spec.modifier) n in
    some (do_number spec.flags (or_zero spec.width) spec.prec c size negative, more)
put_signed spec c other = none

abbrev pub put_unsigned : Spec → ℕ → ℕ → List Arg → Option (List ℕ × List Arg)
put_unsigned spec c bits (num n ∷ more) =
    some (do_number spec.flags (or_zero spec.width) spec.prec c (n % 2 ^ bits) false, more)
put_unsigned spec c bits other = none

abbrev pub put_char : Spec → List Arg → Option (List ℕ × List Arg)
put_char spec (num n ∷ more) = some (do_char spec.flags.adjust (or_zero spec.width) (u8 n), more)
put_char spec other = none

abbrev pub put_text : Spec → List Arg → Option (List ℕ × List Arg)
put_text spec (text t ∷ more) =
    some (do_justify spec.flags.adjust (or_zero spec.width) t none, more)
put_text spec other = none

-- The cases of `vfprintf` for the conversion's character.
unfoldable pub convert : ℕ → Spec → List Arg → Option (List ℕ × List Arg)
convert c spec args =
    if c == b'%'
    then some (b'%' ∷ [], args)
    else if c == b'd' || c == b'i'
    then put_signed spec c args
    else if c == b'u' || c == b'x' || c == b'X' || c == b'b' || c == b'o'
    then put_unsigned spec c (arg_bits spec.modifier) args
    else if c == b'p'
    then put_unsigned spec c 32 args
    else if c == b'c'
    then put_char spec args
    else if c == b's'
    then put_text spec args
    else some ([], args)

-- The precision behind a point.
unfoldable pub get_prec : List ℕ → List Arg → Option (Option ℕ × List ℕ × List Arg)
get_prec [] args = some (none, [], args)
get_prec (c ∷ fmt) args = if c == b'.' then get_number fmt args else some (none, c ∷ fmt, args)

abbrev pub with_modifier :
    Flags → Option ℕ → Option (Option ℕ × List ℕ × List Arg) → Option (Spec × List ℕ × List Arg)
with_modifier flags width none = none
with_modifier flags width (some (prec, fmt, args)) =
    let (m, rest) = get_modifier fmt in
    some (record { flags = flags; width = width; prec = prec; modifier = m }, rest, args)

abbrev pub with_prec :
    Flags → Option (Option ℕ × List ℕ × List Arg) → Option (Spec × List ℕ × List Arg)
with_prec flags none = none
with_prec flags (some (width, fmt, args)) = with_modifier flags width (get_prec fmt args)

-- What is read from the `%` to the conversion's character.
unfoldable pub get_spec : List ℕ → List Arg → Option (Spec × List ℕ × List Arg)
get_spec fmt args =
    let (flags, rest) = get_flags fmt no_flags in with_prec flags (get_number rest args)

-- What has been written before the rest is.
abbrev pub before : List ℕ → Option (List ℕ × Bool) → Option (List ℕ × Bool)
before out none = none
before out (some (more, good)) = some (out ++ more, good)

abbrev pub if_converted :
    (List Arg → Option (List ℕ × Bool)) → Option (List ℕ × List Arg) → Option (List ℕ × Bool)
if_converted more none = none
if_converted more (some (out, args)) = before out (more args)

-- A conversion; with false, the format ended inside it and the code returns -1.
abbrev pub conversion :
    (List ℕ → List Arg → Option (List ℕ × Bool))
    → Option (Spec × List ℕ × List Arg)
    → Option (List ℕ × Bool)
conversion more none = none
conversion more (some (spec, [], args)) = some ([], false)
conversion more (some (spec, c ∷ fmt, args)) = if_converted (more fmt) (convert c spec args)

-- The loop of `vfprintf`: what is written, and whether the code returns its length and not -1.
unfoldable pub format_loop : ℕ → List ℕ → List Arg → Option (List ℕ × Bool)
format_loop zero fmt args = none
format_loop (suc fuel) [] args = some ([], true)
format_loop (suc fuel) (c ∷ fmt) args =
    let plain = before (c ∷ []) (format_loop fuel fmt args) in
    let special = conversion (format_loop fuel) (get_spec fmt args) in
    if c == b'%' then special else plain

unfoldable pub vfprintf : List ℕ → List Arg → Option (List ℕ × Bool)
vfprintf fmt args = format_loop (length fmt + 1) fmt args
