-- ===== src/Crypto/InRange.antt =====
-- Which keys crypto.c stores, and which signatures it can accept.
use mox_boot_builder.Prelude.{
  ℕ, zero, suc, ◌+◌, ◌-◌, ◌/◌, ◌%◌, ◌^◌, ◌<◌, ◌≤◌, ◌≡◌, ◌⊎◌, refl, sym, subst, ap, ◌∙◌, arith, Bool,
  true, false, Bool-cases, inl, inr, some, List, [], ◌∷◌, bit_and, ltb, ◌==◌, if◌then◌else◌, get_or,
  set, length, length-set,
}
use mox_boot_builder.Bits.Fields.{and_mask}
use mox_boot_builder.Bus.{Bus, Result, ok, err}
use mox_boot_builder.Bus.Wait.{Wait, give, follow-some, after-some, run}
use mox_boot_builder.Efuse.Write.{efuse_write_secure_buffer}
use mox_boot_builder.Bignum.{bn_cmp, bn_is_zero, is_negative}
use mox_boot_builder.Bignum.Value.{value, AllWords}
use mox_boot_builder.Bignum.Compare.{bn_cmp-order}
use mox_boot_builder.Bignum.Modulo.{negative-order}
use mox_boot_builder.Crypto.{EcPoint, EcSig, order}
use mox_boot_builder.Crypto.Engine.{point_mul}
use mox_boot_builder.Crypto.Ecdsa.{
  Random, ecdsa_valid_scalar, is_long, ecdsa_verify, verify_valid, verify_order, verify_scalars,
  point_valid, bn_random, random_scalar, generate_private_key,
}

-- Between 1 and the order of the group less 1.
abbrev pub IsScalar : List ℕ → Type 0
IsScalar x = (0 < value x) × (value x < value order.p)

zero_value : (ws : List ℕ) → bn_is_zero ws ≡ false → 0 < value ws
unfolding bn_is_zero
zero_value [] h = cc
zero_value (w ∷ ws) h = elim (Bool-cases (w == 0)) [
  | inl e ↦ let rest = zero_value ws (rw e at h) in omega (arith, rest)
  | inr e ↦ let pos : 0 < w = ground arith in omega (arith, pos)
]

order-AllWords : AllWords order.p
order-AllWords = omega arith

below_order :
    (x : List ℕ)
    → AllWords x
    → length x ≡ 17
    → is_negative (bn_cmp x order.p) ≡ true
    → value x < value order.p
below_order x hx lx h =
    let less : ltb (value x) (value order.p) ≡ true =
      sym (
        ap is_negative (bn_cmp-order x order.p hx order-AllWords lx refl)
        ∙ negative-order (value x) (value order.p))
      ∙ h in
    ltb-lt (value x) (value order.p) less
  where
    ltb-lt : (a b : ℕ) → ltb a b ≡ true → a < b
    ltb-lt a b h = ground arith

IsScalar-of_valid :
    (x : List ℕ) → AllWords x → length x ≡ 17 → ecdsa_valid_scalar x ≡ true → IsScalar x
unfolding ecdsa_valid_scalar
IsScalar-of_valid x hx lx h = elim (Bool-cases (bn_is_zero x)) [
  | inl z ↦ absurd (no (rw z at h))
  | inr n ↦ (zero_value x n, below_order x hx lx (rw n at h))
]
  where
    no : false ≡ true → ⊥
    no e = cc

-- A number in the range passes both tests.
usable-of_IsScalar :
    (x : List ℕ)
    → AllWords x
    → length x ≡ 17
    → IsScalar x
    → (is_negative (bn_cmp x order.p) ≡ true) × (bn_is_zero x ≡ false)
unfolding bn_is_zero
usable-of_IsScalar x hx lx (pos, below) = (
  ap is_negative (bn_cmp-order x order.p hx order-AllWords lx refl)
      ∙ negative-order (value x) (value order.p)
      ∙ is_below (value x) (value order.p) below,
  elim (Bool-cases (bn_is_zero x)) [ inl z ↦ absurd (omega (arith, value_zero x z)) | inr n ↦ n ],
)
  where
    is_below : (a b : ℕ) → a < b → ltb a b ≡ true
    is_below a b h = ground arith

    value_zero : (ws : List ℕ) → bn_is_zero ws ≡ true → value ws ≡ 0
    value_zero [] h = refl
    value_zero (w ∷ ws) h = elim (Bool-cases (w == 0)) [
      | inl e ↦
          let zero_word : w ≡ 0 = ground arith in
          omega (arith, zero_word, value_zero ws (rw e at h))
      | inr e ↦ absurd (cc (rw e at h))
    ]

clash : (b : Bool) → b ≡ true → b ≡ false → ⊥
clash b t f = cc

AllWords-set : (ws : List ℕ) (i v : ℕ) → AllWords ws → v < 2 ^ 32 → AllWords (set ws i v)
AllWords-set [] i v h l = tt
AllWords-set (w ∷ ws) zero v h l = (l, h.1)
AllWords-set (w ∷ ws) (suc i) v h l = (h.0, AllWords-set ws i v h.1 l)

nine_bits : (x : ℕ) → bit_and x 511 < 2 ^ 32
nine_bits x = omega (arith, and_mask 9 x)

module _ {S : Type 0} (bus : Bus S) (random : Random S) (fuel : ℕ) where
  scalars :
      (key : EcPoint) (sig : EcSig) (hash : List ℕ) (s : S) {t : S}
      → verify_scalars bus random fuel key sig hash s ≡ some (true, t)
      → (ecdsa_valid_scalar sig.r ≡ true) × (ecdsa_valid_scalar sig.s ≡ true)
  scalars key sig hash s h = elim (Bool-cases (ecdsa_valid_scalar sig.r)) [
    | inl a ↦ elim (Bool-cases (ecdsa_valid_scalar sig.s)) [
      | inl b ↦ (a, b)
      | inr b ↦ absurd (cc (rw (a, b) at h))
    ]
    | inr a ↦ absurd (cc (rw a at h))
  ]

  after_order :
      (key : EcPoint) (sig : EcSig) (hash : List ℕ) (s : S) {t : S}
      → verify_order bus random fuel key sig hash s ≡ some (true, t)
      → (ecdsa_valid_scalar sig.r ≡ true) × (ecdsa_valid_scalar sig.s ≡ true)
  after_order key sig hash s {t} h =
      let (p, s1, ran, h1) =
        follow-some (point_mul bus fuel false key order.p) (by_point key sig hash) s h in
      ended key sig hash p s1 h1
    where
      by_point : EcPoint → EcSig → List ℕ → Result EcPoint → Wait S Bool
      by_point key sig hash p = elim p [
        | ok q ↦ give false
        | err e ↦ verify_scalars bus random fuel key sig hash
      ]

      ended :
          (key : EcPoint) (sig : EcSig) (hash : List ℕ) (p : Result EcPoint) (s1 : S) {t : S}
          → by_point key sig hash p s1 ≡ some (true, t)
          → (ecdsa_valid_scalar sig.r ≡ true) × (ecdsa_valid_scalar sig.s ≡ true)
      ended key sig hash (ok q) s1 e = absurd (cc e)
      ended key sig hash (err n) s1 e = scalars key sig hash s1 e

  after_valid :
      (key : EcPoint) (sig : EcSig) (hash : List ℕ) (v : Result Bool) (s : S) {t : S}
      → verify_valid bus random fuel key sig hash v s ≡ some (true, t)
      → (ecdsa_valid_scalar sig.r ≡ true) × (ecdsa_valid_scalar sig.s ≡ true)
  after_valid key sig hash (ok true) s h = after_order key sig hash s h
  after_valid key sig hash (ok false) s h = absurd (cc h)
  after_valid key sig hash (err e) s h = after_order key sig hash s h

  -- Whatever the engines answer, `ecdsa_verify` accepts a signature only if the hash has at most
  -- 521 bits and both halves of the signature are between 1 and the order of the group less 1.
  pub ecdsa_verify-InRange :
      (key : EcPoint) (sig : EcSig) (hash : List ℕ) (s : S) {t : S}
      → AllWords sig.r
      → AllWords sig.s
      → length sig.r ≡ 17
      → length sig.s ≡ 17
      → ecdsa_verify bus random fuel key sig hash s ≡ some (true, t)
      → (get_or hash 16 0 < 2 ^ 9) × IsScalar sig.r × IsScalar sig.s
  unfolding ecdsa_verify
  ecdsa_verify-InRange key sig hash s {t} hr hs lr ls h = elim (Bool-cases (is_long hash)) [
    | inl e ↦ absurd (cc (rw e at h))
    | inr e ↦
        let (v, s1, ran, h1) =
          follow-some (point_valid bus random fuel key) (verify_valid bus random fuel key sig hash)
            s (rw e at h) in
        let both = after_valid key sig hash v s1 h1 in
        (short hash e, IsScalar-of_valid sig.r hr lr both.0, IsScalar-of_valid sig.s hs ls both.1)
  ]
    where
      short : (hash : List ℕ) → is_long hash ≡ false → get_or hash 16 0 < 2 ^ 9
      short hash e = ground arith

  -- `paranoid_rand` stores as many words as it is asked for.
  abbrev pub FillsWords : Type 0
  FillsWords =
      (n : ℕ) (s : S) (ws : List ℕ) (t : S)
      → random.paranoid_rand n s ≡ some (ws, t)
      → AllWords ws × (length ws ≡ n)

  abbrev drawn : ℕ → List ℕ → List ℕ
  drawn bits ws =
      let longs = (bits + 31) / 32 in
      set ws (longs - 1) (bit_and (get_or ws (longs - 1) 0) (2 ^ (bits % 32) - 1))

  abbrev IsBelow : List ℕ → Type 0
  IsBelow k = AllWords k × (length k ≡ 17) × (is_negative (bn_cmp k order.p) ≡ true)

  given : {A : Type 0} (a : A) (s : S) {b : A} {t : S} → give a s ≡ some (b, t) → a ≡ b
  given a s h = cc h

  bn_random-IsBelow :
      FillsWords
      → (n : ℕ) (s : S) {k : List ℕ} {t : S}
      → bn_random bus random fuel n order.p 521 s ≡ some (k, t)
      → IsBelow k
  unfolding bn_random
  bn_random-IsBelow fills zero s h = absurd (cc h)
  bn_random-IsBelow fills (suc n) s {k} {t} h =
      let (ws, s1, ran, h1) = follow-some (random.paranoid_rand 17) try s h in
      let (w, l) = fills 17 s ws s1 ran in
      let cut : AllWords (drawn 521 ws) × (length (drawn 521 ws) ≡ 17) = (
        AllWords-set ws 16 (bit_and (get_or ws 16 0) 511) w (nine_bits (get_or ws 16 0)),
        length-set ws 16 (bit_and (get_or ws 16 0) 511) ∙ l,
      ) in
      elim (Bool-cases (is_negative (bn_cmp (drawn 521 ws) order.p))) [
        | inl e ↦ subst IsBelow (given (drawn 521 ws) s1 (rw e at h1)) (cut.0, cut.1, e)
        | inr e ↦ bn_random-IsBelow fills n s1 (rw e at h1)
      ]
    where
      try : List ℕ → Wait S (List ℕ)
      try ws =
          if is_negative (bn_cmp (drawn 521 ws) order.p)
          then give (drawn 521 ws)
          else bn_random bus random fuel n order.p 521

  random_scalar-IsScalar :
      FillsWords
      → (n : ℕ) (s : S) {k : List ℕ} {t : S} → random_scalar bus random fuel n s ≡ some (k, t)
      → IsScalar k
  unfolding random_scalar
  random_scalar-IsScalar fills zero s h = absurd (cc h)
  random_scalar-IsScalar fills (suc n) s {k} {t} h =
      let (x, s1, ran, h1) = follow-some (bn_random bus random fuel fuel order.p 521) try s h in
      let (w, l, below) = bn_random-IsBelow fills fuel s ran in
      elim (Bool-cases (bn_is_zero x)) [
        | inl e ↦ random_scalar-IsScalar fills n s1 (rw e at h1)
        | inr e ↦ subst IsScalar (given x s1 (rw e at h1)) (zero_value x e, below_order x w l below)
      ]
    where
      try : List ℕ → Wait S (List ℕ)
      try x = if bn_is_zero x then random_scalar bus random fuel n else give x

  -- If key generation ends, it has written a key between 1 and the order of the group less 1 into
  -- the secure buffer, and reports what that write reported.
  pub generate_private_key-IsScalar :
      (s : S) {res : Result (Unit {0})} {t : S}
      → FillsWords
      → generate_private_key bus random fuel s ≡ some (res, t)
      → (priv : List ℕ) × (s1 : S) × IsScalar priv
        × (random_scalar bus random fuel fuel s ≡ some (priv, s1))
        × (efuse_write_secure_buffer bus priv s1 ≡ (res, t))
  unfolding generate_private_key
  generate_private_key-IsScalar s {res} {t} fills h =
      let (priv, s1, ran, h1) =
        follow-some (random_scalar bus random fuel fuel)
          (λ k. run (efuse_write_secure_buffer bus k)) s h in
      (priv, s1, random_scalar-IsScalar fills fuel s ran, ran, cc h1)

  -- One of the next `n` draws of `paranoid_rand`, cut to 521 bits, is between 1 and the order of the
  -- group less 1.
  unfoldable pub Comes : ℕ → S → Type 0
  Comes zero s = ⊥
  Comes (suc n) s =
      (ws : List ℕ) × (t : S) × (random.paranoid_rand 17 s ≡ some (ws, t))
      × (IsScalar (drawn 521 ws) ⊎ Comes n t)

  -- The first draw below the order is found; it is 0 only if a usable one is still to come.
  draws :
      (n m : ℕ) (s : S)
      → FillsWords
      → n ≤ m
      → Comes n s
      → (k : List ℕ) × (t : S) × (bn_random bus random fuel m order.p 521 s ≡ some (k, t))
        × ((bn_is_zero k ≡ false) ⊎ ((bn_is_zero k ≡ true) × (j : ℕ) × (j < n) × Comes j t))
  unfolding bn_random Comes
  draws zero m s fills le c = absurd c
  draws (suc n) zero s fills le c = absurd (omega arith)
  draws (suc n) (suc m) s fills le (ws, t, ran, next) =
      let (w, l) = fills 17 s ws t ran in
      let x = drawn 521 ws in
      let words : AllWords x =
        AllWords-set ws 16 (bit_and (get_or ws 16 0) 511) w (nine_bits (get_or ws 16 0)) in
      let size : length x ≡ 17 = length-set ws 16 (bit_and (get_or ws 16 0) 511) ∙ l in
      let first = after-some (random.paranoid_rand 17) try s ran in
      elim (Bool-cases (is_negative (bn_cmp x order.p))) [
        | inl below ↦ (
          x,
          t,
          first ∙ rw below refl,
          elim (Bool-cases (bn_is_zero x)) [
            | inl z ↦ elim next [
              | inl scalar ↦
                  absurd (clash (bn_is_zero x) z (usable-of_IsScalar x words size scalar).1)
              | inr c ↦ inr (z, n, omega arith, c)
            ]
            | inr some_bit ↦ inl some_bit
          ],
        )
        | inr above ↦ elim next [
          | inl scalar ↦ absurd (
              clash (is_negative (bn_cmp x order.p)) (usable-of_IsScalar x words size scalar).0
                above)
          | inr c ↦
              let (k, u, ran1, last) = draws n m t fills (omega arith) c in
              (
                k,
                u,
                first ∙ rw above ran1,
                elim last [
                  | inl some_bit ↦ inl some_bit
                  | inr (z, j, lt, cj) ↦ inr (z, j, omega arith, cj)
                ],
              )
        ]
      ]
    where
      try : List ℕ → Wait S (List ℕ)
      try ws =
          if is_negative (bn_cmp (drawn 521 ws) order.p)
          then give (drawn 521 ws)
          else bn_random bus random fuel m order.p 521

  draws_scalar :
      (n m : ℕ) (s : S)
      → FillsWords
      → n ≤ m
      → n ≤ fuel
      → Comes n s
      → (k : List ℕ) × (t : S) × (random_scalar bus random fuel m s ≡ some (k, t))
  unfolding random_scalar Comes
  draws_scalar zero zero s fills le in_fuel c = absurd c
  draws_scalar (suc n) zero s fills le in_fuel c = absurd (omega arith)
  draws_scalar n (suc m) s fills le in_fuel c =
      let (k, t, ran, next) = draws n fuel s fills in_fuel c in
      let first = after-some (bn_random bus random fuel fuel order.p 521) try s ran in
      elim next [
        | inl some_bit ↦ (k, t, first ∙ rw some_bit refl)
        | inr (z, j, lt, cj) ↦
            let (k1, t1, ran1) = draws_scalar j m t fills (omega arith) (omega arith) cj in
            (k1, t1, first ∙ rw z ran1)
      ]
    where
      try : List ℕ → Wait S (List ℕ)
      try k = if bn_is_zero k then random_scalar bus random fuel m else give k

  -- If one of the next `n` draws of the random source is between 1 and the order of the group less
  -- 1, then key generation ends with `n` rounds for each loop, whatever the draws before it are; it
  -- writes a key in that range into the secure buffer and reports what that write reported.
  pub generate_private_key-ends :
      (n : ℕ) (s : S)
      → n ≤ fuel
      → FillsWords
      → Comes n s
      → (priv : List ℕ) × (s1 : S) × IsScalar priv
        × (generate_private_key bus random fuel s ≡ some (efuse_write_secure_buffer bus priv s1))
  unfolding generate_private_key
  generate_private_key-ends n s enough fills c =
      let (priv, s1, ran) = draws_scalar n fuel s fills enough enough c in
      (
        priv,
        s1,
        random_scalar-IsScalar fills fuel s ran,
        after-some (random_scalar bus random fuel fuel) (λ k. run (efuse_write_secure_buffer bus k))
            s ran,
      )
