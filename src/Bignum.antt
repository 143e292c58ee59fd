-- ===== src/Bignum.antt =====
-- wtmi/crypto.c: numbers of several 32-bit words, the lowest word first. An array is a list of its
-- words.
pub mod Value
pub mod Sum
pub mod Compare
pub mod Modulo
mod Tests
use mox_boot_builder.Prelude.{
  ℕ, zero, suc, ◌+◌, ◌-◌, ◌^◌, Bool, true, false, ◌&&◌, ◌||◌, Option, none, some, List, [], ◌∷◌,
  ltb, leb, ◌==◌, if◌then◌else◌, get_or, replicate,
}
use mox_boot_builder.Bits.{u32, sub32}
use mox_boot_builder.Strings.{ℤ, pos, negsuc}

-- `bn_from_u32`: a single word, in seventeen.
unfoldable pub bn_from_u32 : ℕ → List ℕ
bn_from_u32 src = src ∷ replicate 16 0

-- The loop of `bn_cmp` over the words below place `i`, from the highest down.
unfoldable pub cmp_below : ℕ → List ℕ → List ℕ → ℤ
cmp_below zero a b = pos 0
cmp_below (suc i) a b =
    let rest = cmp_below i a b in
    if ltb (get_or a i 0) (get_or b i 0)
    then negsuc 0
    else if ltb (get_or b i 0) (get_or a i 0)
    then pos 1
    else rest

-- `bn_cmp`
unfoldable pub bn_cmp : List ℕ → List ℕ → ℤ
unfolding cmp_below
bn_cmp a b = cmp_below 17 a b

-- `bn_cmp(a, b) < 0`
abbrev pub is_negative : ℤ → Bool
is_negative (pos n) = false
is_negative (negsuc n) = true

-- `bn_is_zero`, over the words that the list holds.
unfoldable pub bn_is_zero : List ℕ → Bool
bn_is_zero [] = true
bn_is_zero (w ∷ ws) = w == 0 && bn_is_zero ws

-- `c1 || c2`, where each is 1 if an addition overflowed: the two additions of one round.
abbrev pub carry_of : ℕ → ℕ → ℕ → ℕ
carry_of d s c = if leb (2 ^ 32) (d + c) || leb (2 ^ 32) (u32 (d + c) + s) then 1 else 0

-- The loop of `bn_add` and `bn_addmod`, with the carry so far: the sum's words and the last carry.
unfoldable pub add_words : ℕ → List ℕ → List ℕ → List ℕ × ℕ
add_words c [] src = ([], c)
add_words c (d ∷ dst) [] = ([], c)
add_words c (d ∷ dst) (s ∷ src) =
    let (ws, last) = add_words (carry_of d s c) dst src in (u32 (u32 (d + c) + s) ∷ ws, last)

-- `bn_add`, for arrays of the same length `len`
unfoldable pub bn_add : List ℕ → List ℕ → List ℕ × ℕ
unfolding add_words
bn_add dst src = add_words 0 dst src

-- The same of the two subtractions of a round of `bn_modulo`.
abbrev pub borrow_of : ℕ → ℕ → ℕ → ℕ
borrow_of d m c = if ltb d m || ltb (sub32 d m) c then 1 else 0

-- The loop of `bn_modulo` that subtracts the modulus once.
unfoldable pub sub_words : ℕ → List ℕ → List ℕ → List ℕ × ℕ
sub_words c [] m = ([], c)
sub_words c (d ∷ dst) [] = ([], c)
sub_words c (d ∷ dst) (w ∷ m) =
    let (ws, last) = sub_words (borrow_of d w c) dst m in (sub32 (sub32 d w) c ∷ ws, last)

-- `bn_modulo`: `none` is fuel that ran out.
unfoldable pub bn_modulo : ℕ → List ℕ → List ℕ → Option (List ℕ)
unfolding bn_cmp sub_words
bn_modulo zero dst m = none
bn_modulo (suc fuel) dst m =
    let rest = bn_modulo fuel (sub_words 0 dst m).0 m in
    if is_negative (bn_cmp dst m) then some dst else rest

-- `bn_addmod`
unfoldable pub bn_addmod : ℕ → List ℕ → List ℕ → List ℕ → Option (List ℕ)
unfolding bn_add bn_modulo
bn_addmod fuel dst src m = bn_modulo fuel (add_words 0 dst src).0 m
