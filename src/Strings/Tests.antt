-- ===== src/Strings/Tests.antt =====
-- The functions of string.c at concrete inputs.
use mox_boot_builder.Prelude.{
  ℕ, ◌+◌, ◌<◌, ◌≤◌, ◌⊎◌, inl, ◌≡◌, refl, arith, List, [], ◌∷◌, get_or, min,
}
use mox_boot_builder.Strings.{Memory, memcpy, copy_down, memmove, strlen, strnlen}
use mox_boot_builder.Strings.Copy.{memmove-misses_first, memcpy_lem}
use mox_boot_builder.Strings.Compare.{strnlen-min}

abbrev bytes : List ℕ
bytes = 10 ∷ 11 ∷ 12 ∷ 13 ∷ 14 ∷ []

abbrev other : List ℕ
other = 10 ∷ 11 ∷ 99 ∷ []

copied : memcpy 3 0 2 bytes ≡ 12 ∷ 13 ∷ 14 ∷ 13 ∷ 14 ∷ []
unfolding memcpy
copied = refl

moved_wrong : memmove 3 1 0 bytes ≡ 10 ∷ 11 ∷ 11 ∷ 12 ∷ 13 ∷ []
unfolding memmove copy_down
moved_wrong = refl

memmove-misses_first_example : get_or (memmove 3 1 0 bytes) 1 0 ≡ get_or bytes 1 0
memmove-misses_first_example = memmove-misses_first 3 1 0 bytes (omega arith) (omega arith)

strnlen-min_example : strnlen bytes 3 ≡ min (strlen bytes) 3
strnlen-min_example = strnlen-min bytes 3

memcpy_lem_example :
    let mem : Memory = 1 ∷ 2 ∷ 3 ∷ [] in
    ((k : ℕ) → k < 2 → get_or (memcpy 2 0 1 mem) (0 + k) 0 ≡ get_or mem (1 + k) 0)
    × ((j : ℕ) → (j < 0) ⊎ (0 + 2 ≤ j) → get_or (memcpy 2 0 1 mem) j 0 ≡ get_or mem j 0)
memcpy_lem_example = memcpy_lem 2 0 1 (1 ∷ 2 ∷ 3 ∷ []) (inl (omega arith)) (omega arith)
