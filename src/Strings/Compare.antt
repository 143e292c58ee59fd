-- ===== src/Strings/Compare.antt =====
-- The comparisons of string.c decide equality.
use mox_boot_builder.Prelude.{
  ℕ, zero, suc, ◌+◌, ◌-◌, ◌%◌, ◌≤◌, ◌<◌, ◌≡◌, ◌↔◌, refl, subst, ap₂, arith, Bool-cases, inl, inr,
  List, [], ◌∷◌, ◌==◌, ◌!=◌, ==→eq, false, length, take, min,
}
use mox_boot_builder.Strings.{pos, memcmp, strcmp, strlen, strnlen}

abbrev pub AllBytes : List ℕ → Type 0
AllBytes [] = Unit
AllBytes (x ∷ xs) = (x < 256) × AllBytes xs

-- No character is NUL.
abbrev pub IsText : List ℕ → Type 0
IsText [] = Unit
IsText (x ∷ xs) = (0 < x) × IsText xs

same_byte : (a b : ℕ) → a < 256 → b < 256 → ((a + 256 - b) % 256 != 0) ≡ false → a ≡ b
same_byte a b ha hb h = ground arith

memcmp-zero→ :
    (n : ℕ) (p q : List ℕ)
    → AllBytes p
    → AllBytes q
    → n ≤ length p
    → n ≤ length q
    → memcmp n p q ≡ 0
    → take n p ≡ take n q
unfolding memcmp
memcmp-zero→ zero p q bp bq lp lq h = refl
memcmp-zero→ (suc n) [] q bp bq lp lq h = absurd (omega arith)
memcmp-zero→ (suc n) (a ∷ p) [] bp bq lp lq h = absurd (omega arith)
memcmp-zero→ (suc n) (a ∷ p) (b ∷ q) bp bq lp lq h = elim (Bool-cases ((a + 256 - b) % 256 != 0)) [
  | inl e ↦ absurd (ground arith)
  | inr e ↦
      ap₂ ◌∷◌ (same_byte a b bp.0 bq.0 e)
        (memcmp-zero→ n p q bp.1 bq.1 (omega arith) (omega arith) (rw e at h))
]

zero→memcmp :
    (n : ℕ) (p q : List ℕ) → n ≤ length p → n ≤ length q → take n p ≡ take n q → memcmp n p q ≡ 0
unfolding memcmp
zero→memcmp zero p q lp lq h = refl
zero→memcmp (suc n) [] q lp lq h = absurd (omega arith)
zero→memcmp (suc n) (a ∷ p) [] lp lq h = absurd (omega arith)
zero→memcmp (suc n) (a ∷ p) (b ∷ q) lp lq h =
    let e : a ≡ b = cc in
    let t : take n p ≡ take n q = cc in
    let d : (b + 256 - b) % 256 ≡ 0 = omega arith in
    rw (e, d) (zero→memcmp n p q (omega arith) (omega arith) t)

-- On buffers of bytes that are long enough, `memcmp` returns 0 exactly when the first `n` bytes are
-- the same, although it compares in 8 bits.
pub memcmp-zero_iff :
    (n : ℕ) (p q : List ℕ)
    → AllBytes p
    → AllBytes q
    → n ≤ length p
    → n ≤ length q
    → (memcmp n p q ≡ 0) ↔ (take n p ≡ take n q)
memcmp-zero_iff n p q bp bq lp lq = (memcmp-zero→ n p q bp bq lp lq, zero→memcmp n p q lp lq)

strcmp-zero→ : (xs ys : List ℕ) → IsText xs → IsText ys → strcmp xs ys ≡ pos 0 → xs ≡ ys
unfolding strcmp
strcmp-zero→ [] [] tx ty h = refl
strcmp-zero→ [] (b ∷ ys) tx ty h = ground arith
strcmp-zero→ (a ∷ xs) [] tx ty h = ground arith
strcmp-zero→ (a ∷ xs) (b ∷ ys) tx ty h = elim (Bool-cases (a == b)) [
  | inl e ↦ ap₂ ◌∷◌ (==→eq a b e) (strcmp-zero→ xs ys tx.1 ty.1 (rw e at h))
  | inr e ↦ ground arith
]

strcmp_self : (xs : List ℕ) → strcmp xs xs ≡ pos 0
unfolding strcmp
strcmp_self [] = refl
strcmp_self (a ∷ xs) = ground (arith, strcmp_self xs)

-- `strcmp` returns 0 exactly on equal strings.
pub strcmp-zero_iff : (xs ys : List ℕ) → IsText xs → IsText ys → (strcmp xs ys ≡ pos 0) ↔ (xs ≡ ys)
strcmp-zero_iff xs ys tx ty =
    (strcmp-zero→ xs ys tx ty, λ e. subst (λ zs. strcmp xs zs ≡ pos 0) e (strcmp_self xs))

-- `strnlen` is the length of the string, bounded by `n`.
pub strnlen-min : (s : List ℕ) (n : ℕ) → strnlen s n ≡ min (strlen s) n
unfolding strnlen strlen
strnlen-min [] n = omega arith
strnlen-min (c ∷ s) zero = omega arith
strnlen-min (c ∷ s) (suc n) = omega (arith, strnlen-min s n)
