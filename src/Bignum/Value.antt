-- ===== src/Bignum/Value.antt =====
-- The number that an array of words stands for.
use mox_boot_builder.Prelude.{ℕ, zero, suc, ◌+◌, ◌*◌, ◌^◌, ◌<◌, arith, List, [], ◌∷◌, length}

abbrev pub value : List ℕ → ℕ
value [] = 0
value (w ∷ ws) = w + 2 ^ 32 * value ws

-- The first number that does not fit in `n` words.
abbrev pub scale : ℕ → ℕ
scale zero = 1
scale (suc n) = 2 ^ 32 * scale n

abbrev pub AllWords : List ℕ → Type 0
AllWords [] = Unit
AllWords (w ∷ ws) = (w < 2 ^ 32) × AllWords ws

pub value-lt-scale : (ws : List ℕ) → AllWords ws → value ws < scale (length ws)
value-lt-scale [] h = omega arith
value-lt-scale (w ∷ ws) h = omega (arith, value-lt-scale ws h.1)
