-- ===== src/Strings/Copy.antt =====
-- `memcpy` and `memmove` of string.c.
use native.Mathlib.Nat.{add-zero}
use mox_boot_builder.Prelude.{
  ℕ, zero, suc, ◌+◌, ◌-◌, ◌≤◌, ◌<◌, ◌≡◌, ◌⊎◌, inl, List, [], ◌∷◌, refl, ap, ◌∙◌, arith, ◌==◌, ltb,
  leb, length, ◌||◌, false, get_or, set, take, length-set, get_or-set_self, get_or-set_ne,
}
use mox_boot_builder.Strings.{Memory, memcpy, store, copy_down, memmove}

-- Only the `n` places from `d` on are written.
memcpy-outside :
    (n d s j : ℕ) (mem : Memory)
    → (j < d) ⊎ (d + n ≤ j)
    → get_or (memcpy n d s mem) j 0 ≡ get_or mem j 0
unfolding memcpy
memcpy-outside zero d s j mem h = refl
memcpy-outside (suc n) d s j mem h =
    memcpy-outside n (d + 1) (s + 1) j (set mem d (get_or mem s 0)) (ground arith)
    ∙ get_or-set_ne mem d j (get_or mem s 0) 0 (ground arith)

memcpy-inside :
    (n d s k : ℕ) (mem : Memory)
    → (d ≤ s) ⊎ (s + n ≤ d)
    → d + n ≤ length mem
    → k < n
    → get_or (memcpy n d s mem) (d + k) 0 ≡ get_or mem (s + k) 0
unfolding memcpy
memcpy-inside zero d s k mem apart fits h = absurd (omega arith)
memcpy-inside (suc n) d s zero mem apart fits h =
    let first = set mem d (get_or mem s 0) in
    rw (add-zero, add-zero)
      (memcpy-outside n (d + 1) (s + 1) d first (inl (omega arith))
        ∙ get_or-set_self mem d (get_or mem s 0) 0 (omega arith))
memcpy-inside (suc n) d s (suc k) mem apart fits h =
    let first = set mem d (get_or mem s 0) in
    let room : d + 1 + n ≤ length first = rw length-set (omega arith) in
    let at : d + suc k ≡ d + 1 + k = omega arith in
    let of : s + 1 + k ≡ s + suc k = omega arith in
    ap (λ i. get_or (memcpy n (d + 1) (s + 1) first) i 0) at
    ∙ memcpy-inside n (d + 1) (s + 1) k first (ground arith) room (omega arith)
    ∙ get_or-set_ne mem d (s + 1 + k) (get_or mem s 0) 0 (ground arith)
    ∙ ap (λ i. get_or mem i 0) of

-- `memcpy`, copying upwards, is right for regions that do not overlap, and for overlapping ones if
-- the destination lies below the source: every byte of the destination is the byte that the source
-- had before the call, and nothing else changes.
pub memcpy_lem :
    (n d s : ℕ) (mem : Memory)
    → (d ≤ s) ⊎ (s + n ≤ d)
    → d + n ≤ length mem
    → ((k : ℕ) → k < n → get_or (memcpy n d s mem) (d + k) 0 ≡ get_or mem (s + k) 0)
      × ((j : ℕ) → (j < d) ⊎ (d + n ≤ j) → get_or (memcpy n d s mem) j 0 ≡ get_or mem j 0)
memcpy_lem n d s mem apart fits =
    (λ k h. memcpy-inside n d s k mem apart fits h, λ j. memcpy-outside n d s j mem)

pub length-store :
    (src : List ℕ) (i : ℕ) (bytes : List ℕ) → length (store src i bytes) ≡ length bytes
unfolding store
length-store [] i bytes = refl
length-store (b ∷ src) i bytes = length-store src (i + 1) (set bytes i b) ∙ length-set bytes i b

pub store-outside :
    (src : List ℕ) (i j : ℕ) (bytes : List ℕ)
    → (j < i) ⊎ (i + length src ≤ j)
    → get_or (store src i bytes) j 0 ≡ get_or bytes j 0
unfolding store
store-outside [] i j bytes h = refl
store-outside (b ∷ src) i j bytes h =
    store-outside src (i + 1) j (set bytes i b) (ground arith)
    ∙ get_or-set_ne bytes i j b 0 (ground arith)

pub length-memcpy : (n d s : ℕ) (mem : Memory) → length (memcpy n d s mem) ≡ length mem
unfolding memcpy
length-memcpy zero d s mem = refl
length-memcpy (suc n) d s mem =
    length-memcpy n (d + 1) (s + 1) (set mem d (get_or mem s 0)) ∙ length-set mem d (get_or mem s 0)

-- What has been stored is read back.
pub get_or-store :
    (src : List ℕ) (i k : ℕ) (mem : Memory)
    → k < length src
    → i + length src ≤ length mem
    → get_or (store src i mem) (i + k) 0 ≡ get_or src k 0
unfolding store
get_or-store [] i k mem h fits = absurd (omega arith)
get_or-store (b ∷ src) i zero mem h fits =
    ap (λ (j : ℕ). get_or (store src (i + 1) (set mem i b)) j 0) (add-zero i)
    ∙ store-outside src (i + 1) i (set mem i b) (inl (omega arith))
    ∙ get_or-set_self mem i b 0 (omega arith)
get_or-store (b ∷ src) i (suc k) mem h fits =
    ap (λ (j : ℕ). get_or (store src (i + 1) (set mem i b)) j 0) (next i k)
    ∙ get_or-store src (i + 1) k (set mem i b) (omega arith) (omega (arith, length-set mem i b))
  where
    next : (i k : ℕ) → i + suc k ≡ i + 1 + k
    next i k = omega arith

pub get_or-take : (n k : ℕ) (xs : List ℕ) → k < n → get_or (take n xs) k 0 ≡ get_or xs k 0
get_or-take zero k xs h = absurd (omega arith)
get_or-take (suc n) k [] h = refl
get_or-take (suc n) zero (x ∷ xs) h = refl
get_or-take (suc n) (suc k) (x ∷ xs) h = get_or-take n k xs (omega arith)

-- Copying down from `d` writes only the `n` places up to `d`.
copy_down-outside :
    (n d s j : ℕ) (mem : Memory)
    → n ≤ d
    → j + n ≤ d
    → get_or (copy_down n d s mem) j 0 ≡ get_or mem j 0
unfolding copy_down
copy_down-outside zero d s j mem h l = refl
copy_down-outside (suc n) d s j mem h l =
    copy_down-outside n (d - 1) (s - 1) j (set mem d (get_or mem s 0)) (omega arith) (omega arith)
    ∙ get_or-set_ne mem d j (get_or mem s 0) 0 (ground arith)

-- When the destination lies above the source and they overlap, `memmove` never writes the first
-- byte of the destination: the result is wrong whenever it should differ from what was there.
pub memmove-misses_first :
    (n dest src : ℕ) (mem : Memory)
    → src < dest
    → dest < src + n
    → get_or (memmove n dest src mem) dest 0 ≡ get_or mem dest 0
unfolding memmove
memmove-misses_first n dest src mem above overlap =
    let differ : (dest == src) ≡ false = ground arith in
    let down : (ltb dest src || leb (src + n) dest) ≡ false = ground arith in
    rw (differ, down)
      (copy_down-outside n (dest + n) (src + n) dest mem (omega arith) (omega arith))
