-- ===== src/UbootEnv/Ends.antt =====
-- The loops of uboot-env.c come to an end.
use mox_boot_builder.Prelude.{
  ℕ, zero, suc, ◌+◌, ◌-◌, ◌≤◌, ◌<◌, ◌≡◌, inl, inr, refl, sym, subst, arith, Bool-cases,
  Option-cases, Bool, true, false, not, ◌&&◌, ◌||◌, Option, none, some, List, [], ◌∷◌, length, take,
  drop, get_or, leb, ltb, ◌==◌, if◌then◌else◌,
}
use mox_boot_builder.Strings.{memchr}
use mox_boot_builder.UbootEnv.{
  Flash, Scan, Callback, chunk, chunk_len, find_nul, visit, vars_loop, env_loop, is_empty,
  load_scan, after_vars, uboot_env_nor_size,
}

memchr-lt : (n c : ℕ) (s : List ℕ) (k : ℕ) → memchr n c s ≡ some k → k < n
unfolding memchr
memchr-lt zero c s k h = cc
memchr-lt (suc n) c [] k h = cc
memchr-lt (suc n) c (x ∷ s) k h = elim (Bool-cases (x == c)) [
  | inl e ↦ let first : 0 ≡ k = cc (rw (e, memchr) at h) in omega arith
  | inr e ↦ elim (Option-cases (memchr n c s)) [
    | inl p ↦ cc (rw (e, p, memchr) at h)
    | inr (j, p) ↦
        let next : j + 1 ≡ k = cc (rw (e, p, memchr) at h) in
        let below = memchr-lt n c s j p in omega arith
  ]
]

find_nul-inside : (buf : List ℕ) (p k : ℕ) → find_nul buf p ≡ some k → (p ≤ k) × (k < length buf)
unfolding find_nul
find_nul-inside buf p k h = found (memchr (length buf - p) 0 (drop p buf)) refl h
  where
    found :
        (o : Option ℕ)
        → memchr (length buf - p) 0 (drop p buf) ≡ o
        → elim o [ none ↦ none | some k ↦ some (p + k) ] ≡ some k
        → (p ≤ k) × (k < length buf)
    found none e h = cc
    found (some j) e h =
        let next : p + j ≡ k = cc in
        let below = memchr-lt (length buf - p) 0 (drop p buf) j e in (omega arith, omega arith)

if-ends :
    {A : Type 0} (b : Bool) (x y : Option A)
    → (b ≡ true → (r : A) × (x ≡ some r))
    → (b ≡ false → (r : A) × (y ≡ some r))
    → (r : A) × ((if b then x else y) ≡ some r)
if-ends true x y f g = f refl
if-ends false x y f g = g refl

module _ {D : Type 0} (cb : Callback D) where
  -- The loop over the variables in the buffer ends when it has fuel for the places from the first
  -- NUL on.
  vars_loop-ends :
      (fuel : ℕ) (buf : List ℕ) (z : Option ℕ) (sc : Scan D)
      → 0 < fuel
      → ((k : ℕ) → z ≡ some k → (k < length buf) × (length buf < k + fuel))
      → (r : Scan D × Bool) × (vars_loop cb fuel buf z sc ≡ some r)
  unfolding vars_loop
  vars_loop-ends zero buf z sc h enough = absurd (omega arith)
  vars_loop-ends (suc fuel) buf none sc h enough = ((sc, true), refl)
  vars_loop-ends (suc fuel) buf (some z) sc h enough =
      let (inside, fits) = enough z refl in
      let (seen, go) = visit cb (take (z - sc.place) (drop sc.place buf)) sc in
      let moved = record seen { place = z + 1 } in
      let (r, ran) =
        vars_loop-ends fuel buf (find_nul buf (z + 1)) moved (omega arith)
          (λ k e. let (a, b) = find_nul-inside buf (z + 1) k e in (b, omega arith)) in
      let next = vars_loop cb fuel buf (find_nul buf (z + 1)) moved in
      let last = z + 1 == length buf || get_or buf (z + 1) 0 == 0 in
      if-ends (not go) (some (seen, false)) (if last then some (moved, true) else next)
        (λ _. ((seen, false), refl))
        (λ _. if-ends last (some (moved, true)) next (λ _. ((moved, true), refl)) (λ _. (r, ran)))

  -- A further round of `env_loop` is run only from a place behind the one of the last.
  after_vars-ends :
      (missed more : Scan D → Option (ℕ × D)) (buf : List ℕ) (r : Scan D × Bool)
      → ((sc : Scan D) → (d : ℕ × D) × (missed sc ≡ some d))
      → ((sc : Scan D) → 0 < sc.place → (d : ℕ × D) × (more sc ≡ some d))
      → (d : ℕ × D) × (after_vars cb missed more buf (some r) ≡ some d)
  after_vars-ends missed more buf (sc, go) f g =
      let out = some (sc.ignored, sc.data_kept) in
      let stop = ltb sc.place (length buf) && get_or buf sc.place 0 == 0 in
      let on = if sc.place == 0 then missed sc else more sc in
      if-ends (not go) out (if stop then out else on) (λ _. ((sc.ignored, sc.data_kept), refl))
        (λ _.
          if-ends stop out on (λ _. ((sc.ignored, sc.data_kept), refl))
            (λ _.
              if-ends (sc.place == 0) (missed sc) (more sc) (λ _. f sc) (λ e. g sc (ground arith))))

  -- The loop over the environment ends, whatever the flash holds and wherever it begins, when it has
  -- fuel for the bytes that are left.
  pub env_loop-ends :
      (fuel : ℕ) (spi_nor_read : Flash) (pos : ℕ) (ignore_first : Bool) (ignored : ℕ) (d : D)
      → uboot_env_nor_size < pos + fuel
      → 0 < fuel
      → (r : ℕ × D) × (env_loop cb fuel spi_nor_read pos ignore_first ignored d ≡ some r)
  unfolding env_loop
  env_loop-ends zero spi_nor_read pos ignore_first ignored d enough h = absurd (omega arith)
  env_loop-ends (suc fuel) spi_nor_read pos ignore_first ignored d enough h =
      let buf = chunk spi_nor_read pos in
      let z = find_nul buf 0 in
      let missed = λ (sc : Scan D).
        env_loop cb fuel spi_nor_read (pos + chunk_len pos) true (sc.ignored + 1) sc.data_kept in
      let more = λ (sc : Scan D).
        env_loop cb fuel spi_nor_read (pos + sc.place) sc.ignore_first sc.ignored sc.data_kept in
      let vars = vars_loop cb (length buf + 1) buf z (load_scan cb ignore_first ignored d) in
      let (r, ran) =
        vars_loop-ends (length buf + 1) buf z (load_scan cb ignore_first ignored d) (omega arith)
          (λ k e. let (a, b) = find_nul-inside buf 0 k e in (b, omega arith)) in
      let rest = after_vars cb missed more buf vars in
      let out = some (ignored, d) in
      if-ends (leb uboot_env_nor_size pos) out (if is_empty cb ignore_first z then out else rest)
        (λ _. ((ignored, d), refl))
        (λ e.
          let inside : pos < uboot_env_nor_size = ground arith in
          if-ends (is_empty cb ignore_first z) out rest (λ _. ((ignored, d), refl))
            (λ _.
              subst
                (λ (o : Option (Scan D × Bool)).
                  (q : ℕ × D) × (after_vars cb missed more buf o ≡ some q))
                (sym ran)
                (after_vars-ends missed more buf r
                  (λ sc.
                    env_loop-ends fuel spi_nor_read (pos + chunk_len pos) true (sc.ignored + 1)
                      sc.data_kept (omega arith) (omega arith))
                  (λ sc pl.
                    env_loop-ends fuel spi_nor_read (pos + sc.place) sc.ignore_first sc.ignored
                      sc.data_kept (omega arith) (omega arith)))))
