-- ===== src/Stdio/Reads.antt =====
-- What stdio.c reads of a conversion: flags, width, precision and modifier, in the order in which
-- they are printed.
use mox_boot_builder.Prelude.{
  ℕ, ◌^◌, ◌<◌, ◌≡◌, refl, sym, ap, ◌∙◌, arith, inl, inr, Bool-cases, Bool, true, false, ◌||◌, List,
  [], ◌∷◌, ◌++◌, ◌==◌, Option, none, some, ltb,
}
use mox_boot_builder.Bits.{u32}
use mox_boot_builder.Stdio.{Flags, get_flags, isdigit, get_digits, digit}
use mox_boot_builder.Stdio.Format.{
  Arg, Modifier, mod_none, mod_hh, mod_h, mod_l, mod_ll, no_flags, get_number, get_modifier, Spec,
  get_prec, get_spec,
}
use mox_boot_builder.Stdio.Render.{
  Conversion, percent, decimal_d, decimal_i, unsigned, hex, big_hex, binary, octal, pointer, char,
  string, letter, decimal, opt, put_flags, put_width, put_prec, put_modifier, put_spec, IsWidth,
  IsPrec, IsPrintable, NoFlag, NoDigit, decimal-back, first_digit, is_digit, StartsHigh,
}

abbrev is_flag : ℕ → Bool
is_flag c = c == b'#' || c == b'0' || c == b'-' || c == b' ' || c == b'+'

-- What begins with a character that is no flag, no digit and no star.
abbrev Opens : List ℕ → Type 0
Opens rest =
    (c : ℕ) × (tail : List ℕ) × (rest ≡ c ∷ tail)
    × (is_flag c ≡ false)
    × (isdigit c ≡ false)
    × ((c == b'*') ≡ false)

stops-flags :
    (c : ℕ) (rest : List ℕ) (f : Flags) → is_flag c ≡ false → get_flags (c ∷ rest) f ≡ (f, c ∷ rest)
unfolding get_flags
stops-flags c rest f h = ground arith

stops-digits :
    (c : ℕ) (rest : List ℕ) (n : ℕ) → isdigit c ≡ false → get_digits n (c ∷ rest) ≡ (n, c ∷ rest)
unfolding get_digits
stops-digits c rest n h = rw (h, get_digits)

Opens-NoFlag : (rest : List ℕ) → Opens rest → NoFlag rest
Opens-NoFlag rest (c, tail, e, flag, dig, star) f = rw e (stops-flags c tail f flag)

Opens-NoDigit : (rest : List ℕ) → Opens rest → NoDigit rest
Opens-NoDigit rest (c, tail, e, flag, dig, star) n = rw e (stops-digits c tail n dig)

letter-Opens : (k : Conversion) (rest : List ℕ) → Opens (letter k ∷ rest)
unfolding isdigit
letter-Opens percent rest = (b'%', rest, refl, refl, refl, refl)
letter-Opens decimal_d rest = (b'd', rest, refl, refl, refl, refl)
letter-Opens decimal_i rest = (b'i', rest, refl, refl, refl, refl)
letter-Opens unsigned rest = (b'u', rest, refl, refl, refl, refl)
letter-Opens hex rest = (b'x', rest, refl, refl, refl, refl)
letter-Opens big_hex rest = (b'X', rest, refl, refl, refl, refl)
letter-Opens binary rest = (b'b', rest, refl, refl, refl, refl)
letter-Opens octal rest = (b'o', rest, refl, refl, refl, refl)
letter-Opens pointer rest = (b'p', rest, refl, refl, refl, refl)
letter-Opens char rest = (b'c', rest, refl, refl, refl, refl)
letter-Opens string rest = (b's', rest, refl, refl, refl, refl)

modifier-Opens : (m : Modifier) (rest : List ℕ) → Opens rest → Opens (put_modifier m rest)
unfolding isdigit
modifier-Opens mod_none rest h = h
modifier-Opens mod_hh rest h = (b'h', b'h' ∷ rest, refl, refl, refl, refl)
modifier-Opens mod_h rest h = (b'h', rest, refl, refl, refl, refl)
modifier-Opens mod_l rest h = (b'l', rest, refl, refl, refl, refl)
modifier-Opens mod_ll rest h = (b'l', b'l' ∷ rest, refl, refl, refl, refl)

prec-Opens : (prec : Option ℕ) (rest : List ℕ) → Opens rest → Opens (put_prec prec rest)
unfolding isdigit
prec-Opens none rest h = h
prec-Opens (some n) rest h = (b'.', decimal n ++ rest, refl, refl, refl, refl)

-- The decimal digits of a number that is not 0 begin with no flag.
decimal-StartsHigh : (n : ℕ) → 0 < n → n < 2 ^ 64 → StartsHigh (decimal n)
decimal-StartsHigh n pos h =
    let some_left : (n == 0) ≡ false = ground arith in rw some_left (first_digit 64 n [] pos h h)

high_no_flag : (k : ℕ) → 0 < k → k < 10 → is_flag (digit false k) ≡ false
high_no_flag k lo hi = ground arith

width-NoFlag : (w : Option ℕ) (rest : List ℕ) → IsWidth w → Opens rest → NoFlag (put_width w rest)
width-NoFlag none rest h o f = Opens-NoFlag rest o f
width-NoFlag (some n) rest (pos, small) o f =
    let (k, ds, lo, hi, e) = decimal-StartsHigh n pos (omega (arith, small)) in
    rw e (stops-flags (digit false k) (ds ++ rest) f (high_no_flag k lo hi))

abbrev flags_of : (alt zeropad adjust blank sign : Bool) → Flags
flags_of alt zeropad adjust blank sign = record {
  alt = alt;
  zeropad = zeropad;
  adjust = adjust;
  blank = blank;
  sign = sign;
}

alt-back :
    (a : Bool) (rest : List ℕ)
    → get_flags (opt a b'#' rest) no_flags ≡ get_flags rest (flags_of a false false false false)
unfolding get_flags
alt-back true rest = refl
alt-back false rest = refl

zeropad-back :
    (a z : Bool) (rest : List ℕ)
    → get_flags (opt z b'0' rest) (flags_of a false false false false)
      ≡ get_flags rest (flags_of a z false false false)
unfolding get_flags
zeropad-back a true rest = refl
zeropad-back a false rest = refl

adjust-back :
    (a z j : Bool) (rest : List ℕ)
    → get_flags (opt j b'-' rest) (flags_of a z false false false)
      ≡ get_flags rest (flags_of a z j false false)
unfolding get_flags
adjust-back a z true rest = refl
adjust-back a z false rest = refl

blank-back :
    (a z j b : Bool) (rest : List ℕ)
    → get_flags (opt b b' ' rest) (flags_of a z j false false)
      ≡ get_flags rest (flags_of a z j b false)
unfolding get_flags
blank-back a z j true rest = refl
blank-back a z j false rest = refl

sign-back :
    (a z j b g : Bool) (rest : List ℕ)
    → get_flags (opt g b'+' rest) (flags_of a z j b false) ≡ get_flags rest (flags_of a z j b g)
unfolding get_flags
sign-back a z j b true rest = refl
sign-back a z j b false rest = refl

flags-back :
    (f : Flags) (rest : List ℕ) → NoFlag rest → get_flags (put_flags f rest) no_flags ≡ (f, rest)
flags-back f rest stop =
    let plus = opt f.sign b'+' rest in
    let space = opt f.blank b' ' plus in
    let minus = opt f.adjust b'-' space in
    alt-back f.alt (opt f.zeropad b'0' minus)
    ∙ zeropad-back f.alt f.zeropad minus
    ∙ adjust-back f.alt f.zeropad f.adjust space
    ∙ blank-back f.alt f.zeropad f.adjust f.blank plus
    ∙ sign-back f.alt f.zeropad f.adjust f.blank f.sign rest
    ∙ stop f

number_at :
    (c n : ℕ) (tail rest : List ℕ) (args : List Arg)
    → isdigit c ≡ true
    → (c == b'*') ≡ false
    → n < 2 ^ 31
    → get_digits 0 (c ∷ tail) ≡ (n, rest)
    → get_number (c ∷ tail) args ≡ some (some n, rest, args)
unfolding get_number
number_at c n tail rest args dig star small e =
    let positive : ltb (u32 n) (2 ^ 31) ≡ true = ground arith in
    let same : u32 n ≡ n = omega arith in
    rw (star, dig, e, positive) (ap (λ (t : ℕ). some (some t, rest, args)) same)

-- The decimal digits are read as a number.
number-decimal :
    (n : ℕ) (rest : List ℕ) (args : List Arg)
    → n < 2 ^ 31
    → Opens rest
    → get_number (decimal n ++ rest) args ≡ some (some n, rest, args)
unfolding isdigit
number-decimal n rest args h o = elim (Bool-cases (n == 0)) [
  | inl e ↦
      let none_left : n ≡ 0 = ground arith in
      let back = decimal-back 0 rest (omega arith) (Opens-NoDigit rest o) in
      rw none_left (number_at b'0' 0 rest rest args refl refl (omega arith) back)
  | inr e ↦
      let (k, ds, lo, hi, high) = decimal-StartsHigh n (ground arith) (omega arith) in
      let back = decimal-back n rest h (Opens-NoDigit rest o) in
      ap (λ t. get_number (t ++ rest) args) high
      ∙ number_at (digit false k) n (ds ++ rest) rest args (is_digit k hi) (ground arith) h
          (ap (λ t. get_digits 0 (t ++ rest)) (sym high) ∙ back)
]

number-none :
    (rest : List ℕ) (args : List Arg) → Opens rest → get_number rest args ≡ some (none, rest, args)
unfolding get_number
number-none rest args (c, tail, e, flag, dig, star) = rw (e, star, dig) refl

width-back :
    (w : Option ℕ) (rest : List ℕ) (args : List Arg)
    → IsWidth w
    → Opens rest
    → get_number (put_width w rest) args ≡ some (w, rest, args)
width-back none rest args h o = number-none rest args o
width-back (some n) rest args h o = number-decimal n rest args h.1 o

-- What begins with no point either.
abbrev NoPoint : List ℕ → Type 0
NoPoint rest = (args : List Arg) → get_prec rest args ≡ some (none, rest, args)

letter-NoPoint :
    (k : Conversion) (m : Modifier) (rest : List ℕ) → NoPoint (put_modifier m (letter k ∷ rest))
unfolding get_prec
letter-NoPoint k mod_hh rest args = refl
letter-NoPoint k mod_h rest args = refl
letter-NoPoint k mod_l rest args = refl
letter-NoPoint k mod_ll rest args = refl
letter-NoPoint percent mod_none rest args = refl
letter-NoPoint k mod_none rest args = refl

prec-back :
    (p : Option ℕ) (k : Conversion) (m : Modifier) (rest : List ℕ) (args : List Arg)
    → IsPrec p
    → let after = put_modifier m (letter k ∷ rest) in
      get_prec (put_prec p after) args ≡ some (p, after, args)
unfolding get_prec
prec-back none k m rest args h = letter-NoPoint k m rest args
prec-back (some n) k m rest args h =
    number-decimal n (put_modifier m (letter k ∷ rest)) args h
      (modifier-Opens m (letter k ∷ rest) (letter-Opens k rest))

modifier-back :
    (m : Modifier) (k : Conversion) (rest : List ℕ)
    → get_modifier (put_modifier m (letter k ∷ rest)) ≡ (m, letter k ∷ rest)
unfolding get_modifier
modifier-back mod_hh k rest = refl
modifier-back mod_ll k rest = refl
modifier-back mod_h percent rest = refl
modifier-back mod_l percent rest = refl
modifier-back mod_none percent rest = refl
modifier-back m k rest = refl

-- A conversion's text is read back, whatever follows it.
pub get_spec-put_spec :
    (sp : Spec) (k : Conversion) (rest : List ℕ) (args : List Arg)
    → IsPrintable sp
    → get_spec (put_spec sp (letter k ∷ rest)) args ≡ some (sp, letter k ∷ rest, args)
unfolding get_spec
get_spec-put_spec sp k rest args (w, pr) =
    let mods = put_modifier sp.modifier (letter k ∷ rest) in
    let mods_open = modifier-Opens sp.modifier (letter k ∷ rest) (letter-Opens k rest) in
    let precs = put_prec sp.prec mods in
    let precs_open = prec-Opens sp.prec mods mods_open in
    rw (flags-back sp.flags (put_width sp.width precs) (width-NoFlag sp.width precs w precs_open)) (
      rw (width-back sp.width precs args w precs_open) (
        rw (prec-back sp.prec k sp.modifier rest args pr)
          (rw (modifier-back sp.modifier k rest) refl)))
