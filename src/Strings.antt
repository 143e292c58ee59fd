-- ===== src/Strings.antt =====
-- wtmi/string.c. `mem` is the memory as bytes, and pointers are places in it; a C string is the
-- list of its characters, with the terminating NUL behind the last one.
pub mod Copy
pub mod Compare
mod Tests
use mox_boot_builder.Prelude.{
  ℕ, zero, suc, ◌+◌, ◌-◌, ◌%◌, Bool, true, false, ◌&&◌, ◌||◌, Option, none, some, List, [], ◌∷◌,
  ◌==◌, ◌!=◌, ltb, leb, if◌then◌else◌, get_or, set,
}
use mox_boot_builder.Bits.{u8}

-- `negsuc n` is -(n + 1).
pub data ℤ : Type 0 where
  pos : ℕ → ℤ
  negsuc : ℕ → ℤ

-- `a - b` of two characters, as an `int`
abbrev pub sub_ℕ : ℕ → ℕ → ℤ
sub_ℕ a b = if leb b a then pos (a - b) else negsuc (b - a - 1)

-- A comparison that gave 0.
abbrev pub is_same : ℤ → Bool
is_same (pos zero) = true
is_same r = false

abbrev pub Memory : Type 0
Memory = List ℕ

unfoldable pub memset : ℕ → ℕ → ℕ → Memory → Memory
memset zero dest c mem = mem
memset (suc n) dest c mem = memset n (dest + 1) c (set mem dest (u8 c))

unfoldable pub bzero : ℕ → ℕ → Memory → Memory
bzero zero dest mem = mem
bzero (suc n) dest mem = bzero n (dest + 1) (set mem dest 0)

-- `memcpy`: the number of bytes, the destination, the source.
unfoldable pub memcpy : ℕ → ℕ → ℕ → Memory → Memory
memcpy zero d s mem = mem
memcpy (suc n) d s mem = memcpy n (d + 1) (s + 1) (set mem d (get_or mem s 0))

-- `memcpy(&mem[i], src, n)`, `src` being the n bytes, which stand elsewhere.
unfoldable pub store : List ℕ → ℕ → Memory → Memory
store [] i mem = mem
store (b ∷ src) i mem = store src (i + 1) (set mem i b)

-- `while (d > e) *d-- = *s--;` with `n` rounds left.
unfoldable pub copy_down : ℕ → ℕ → ℕ → Memory → Memory
copy_down zero d s mem = mem
copy_down (suc n) d s mem = copy_down n (d - 1) (s - 1) (set mem d (get_or mem s 0))

unfoldable pub memmove : ℕ → ℕ → ℕ → Memory → Memory
memmove n dest src mem =
    if dest == src
    then mem
    else if ltb dest src || leb (src + n) dest
    then memcpy n dest src mem
    else copy_down n (dest + n) (src + n) mem

-- The difference of two bytes as an `s8`, a bit pattern below 256.
unfoldable pub memcmp : ℕ → List ℕ → List ℕ → ℕ
memcmp zero p1 p2 = 0
memcmp (suc n) [] p2 = 0
memcmp (suc n) (a ∷ p1) [] = 0
memcmp (suc n) (a ∷ p1) (b ∷ p2) =
    let d = (a + 256 - b) % 256 in let rest = memcmp n p1 p2 in if d != 0 then d else rest

-- `memchr`: where the byte is, from the start of the buffer.
unfoldable pub memchr : ℕ → ℕ → List ℕ → Option ℕ
memchr zero c s = none
memchr (suc n) c [] = none
memchr (suc n) c (x ∷ s) = elim (x == c) [
  | true ↦ some 0
  | false ↦ elim (memchr n c s) [ none ↦ none | some k ↦ some (k + 1) ]
]

unfoldable pub strcmp : List ℕ → List ℕ → ℤ
strcmp [] [] = pos 0
strcmp [] (b ∷ ys) = sub_ℕ 0 b
strcmp (a ∷ xs) [] = sub_ℕ a 0
strcmp (a ∷ xs) (b ∷ ys) = let rest = strcmp xs ys in if a == b then rest else sub_ℕ a b

unfoldable pub strncmp : ℕ → List ℕ → List ℕ → ℤ
strncmp zero xs ys = pos 0
strncmp (suc n) [] [] = pos 0
strncmp (suc n) [] (b ∷ ys) = sub_ℕ 0 b
strncmp (suc n) (a ∷ xs) [] = sub_ℕ a 0
strncmp (suc n) (a ∷ xs) (b ∷ ys) = let rest = strncmp n xs ys in if a == b then rest else sub_ℕ a b

unfoldable pub strlen : List ℕ → ℕ
strlen [] = 0
strlen (c ∷ s) = strlen s + 1

-- `strnlen`; the test of the character comes before the test of `n`.
unfoldable pub strnlen : List ℕ → ℕ → ℕ
strnlen [] n = 0
strnlen (c ∷ s) zero = 0
strnlen (c ∷ s) (suc n) = strnlen s n + 1
