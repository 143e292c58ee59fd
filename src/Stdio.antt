-- ===== src/Stdio.antt =====
-- wtmi/stdio.c: the number conversion of the `printf` family. What is written to the stream is the
-- list of its characters; the return value counts them.
pub mod Digits
pub mod Format
pub mod Render
pub mod Reads
pub mod Shown
pub mod Pieces
mod Tests
use mox_boot_builder.Prelude.{
  ℕ, zero, suc, ◌+◌, ◌-◌, ◌*◌, ◌/◌, ◌%◌, ◌^◌, Bool, true, false, not, ◌&&◌, ◌||◌, List, [], ◌∷◌,
  ◌++◌, bit_and, ◌==◌, ◌!=◌, ltb, leb, max, if◌then◌else◌, Option, none, some, get_or, length,
  replicate,
}
use mox_boot_builder.Bits.{◌>>>◌, u8, u32}

-- `enum flags`, one field for each bit
pub record Flags : Type 0 where
  pub alt : Bool
  pub zeropad : Bool
  pub adjust : Bool
  pub blank : Bool
  pub sign : Bool

-- `get_flags`: the flags and what is left of the format.
unfoldable pub get_flags : List ℕ → Flags → Flags × List ℕ
get_flags [] f = (f, [])
get_flags (c ∷ fmt) f = elim (c == b'#') [
  | true ↦ get_flags fmt (record f { alt = true })
  | false ↦ elim (c == b'0') [
    | true ↦ get_flags fmt (record f { zeropad = true })
    | false ↦ elim (c == b'-') [
      | true ↦ get_flags fmt (record f { adjust = true })
      | false ↦ elim (c == b' ') [
        | true ↦ get_flags fmt (record f { blank = true })
        | false ↦ elim (c == b'+') [
          | true ↦ get_flags fmt (record f { sign = true })
          | false ↦ (f, c ∷ fmt)
        ]
      ]
    ]
  ]
]

unfoldable pub isdigit : ℕ → Bool
isdigit c = leb b'0' c && leb c b'9'

-- The loop of `get_number` over the digits; `res` has 32 bits. What the code does when the signed
-- number overflows is undefined, and taken as the wrap-around here.
unfoldable pub get_digits : ℕ → List ℕ → ℕ × List ℕ
get_digits res [] = (res, [])
get_digits res (c ∷ fmt) = elim (isdigit c) [
  | true ↦ get_digits (u32 (res * 10 + (c - b'0'))) fmt
  | false ↦ (res, c ∷ fmt)
]

-- `divmod10`: the remainder and the new value of `*n`.
unfoldable pub divmod10 : ℕ → ℕ × ℕ
divmod10 n =
    let q0 = (n >>> 1) + (n >>> 2) in
    let q1 = q0 + (q0 >>> 4) in
    let q2 = q1 + (q1 >>> 8) in
    let q3 = q2 + (q2 >>> 16) in
    let q4 = q3 + (q3 >>> 32) in
    let q = q4 >>> 3 in let r = u8 (n - 10 * q) in (r % 10, q + (if ltb 9 r then 1 else 0))

-- `digitsL[d]` and `digitsH[d]`, for a digit below 16
abbrev pub digit : Bool → ℕ → ℕ
digit upper d = if ltb d 10 then b'0' + d else (if upper then b'A' else b'a') + (d - 10)

-- One round of the digit loop: the digit and what is left of the number.
unfoldable pub split_digit : ℕ → ℕ → ℕ × ℕ
split_digit base n =
    if base == 16
    then (bit_and n 15, n >>> 4)
    else if base == 8
    then (bit_and n 7, n >>> 3)
    else if base == 2
    then (bit_and n 1, n >>> 1)
    else divmod10 n

-- `while (number) { *--p = …; ++len; }`, with fuel for the digits; `p` is what has been stored.
unfoldable pub digit_loop : ℕ → Bool → ℕ → ℕ → List ℕ → List ℕ
digit_loop zero upper base n p = p
digit_loop (suc fuel) upper base n p =
    let (d, rest) = split_digit base n in
    let more = digit_loop fuel upper base rest (digit upper d ∷ p) in if n == 0 then p else more

abbrev pub base_of : ℕ → ℕ
base_of spec =
    if spec == b'X' || spec == b'p' || spec == b'x'
    then 16
    else if spec == b'o'
    then 8
    else if spec == b'b'
    then 2
    else 10

abbrev pub prefix_of : ℕ → Bool → List ℕ
prefix_of spec alt =
    if spec == b'p'
    then b'0' ∷ b'x' ∷ []
    else if not alt
    then []
    else if spec == b'X'
    then b'0' ∷ b'X' ∷ []
    else if spec == b'x'
    then b'0' ∷ b'x' ∷ []
    else if spec == b'o'
    then b'0' ∷ []
    else if spec == b'b'
    then b'0' ∷ b'b' ∷ []
    else []

-- The sign character, if any.
abbrev pub sign_of : Flags → Bool → List ℕ
sign_of f negative =
    if negative then b'-' ∷ [] else if f.sign then b'+' ∷ [] else if f.blank then b' ' ∷ [] else []

-- The padding by zeros and by spaces, `body` being the number's digits. `none` is the precision -1.
unfoldable pub paddings : Flags → ℕ → Option ℕ → ℕ → ℕ → ℕ × ℕ
paddings f width none others len =
    let minlen = len + others in
    let gap = max width minlen - minlen in if f.zeropad then (gap, 0) else (0, gap)
paddings f width (some prec) others len =
    let zeros = prec - len in
    let minlen = len + zeros + others in (zeros, max minlen width - minlen)

-- `do_number`: the characters written. A width below 0 counts as 0.
unfoldable pub do_number : Flags → ℕ → Option ℕ → ℕ → ℕ → Bool → List ℕ
do_number f width prec spec number negative =
    let raw = digit_loop 64 (spec == b'X') (base_of spec) number [] in
    let body : List ℕ = elim prec [
      | none ↦ (if number == 0 then b'0' ∷ [] else raw)
      | some p ↦ raw
    ] in
    let pfx = prefix_of spec f.alt in
    let sgn = sign_of f negative in
    let (zeros, spaces) = paddings f width prec (length pfx + length sgn) (length body) in
    let number_part = sgn ++ (pfx ++ (replicate zeros b'0' ++ body)) in
    if f.adjust then number_part ++ replicate spaces b' ' else replicate spaces b' ' ++ number_part
