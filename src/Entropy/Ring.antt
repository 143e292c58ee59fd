-- ===== src/Entropy/Ring.antt =====
-- The array of a buffer of ebg.c, read around its end.
use mox_boot_builder.Prelude.{
  ℕ, zero, suc, ◌+◌, ◌%◌, ◌≤◌, ◌<◌, ◌≡◌, ◌⊎◌, inl, inr, refl, sym, ap, ap₂, ◌∙◌, arith, List, [],
  ◌∷◌, ◌++◌, length, get_or, set, replicate, length-replicate, length-set, get_or-set_self,
  get_or-set_ne,
}
use mox_boot_builder.Strings.{bzero, store}
use mox_boot_builder.Strings.Copy.{store-outside}
use mox_boot_builder.Entropy.{Cbuf, empty_cbuf, read_at}

-- The `n` bytes from place `i` on, around the ring.
abbrev pub ring : ℕ → ℕ → List ℕ → List ℕ
ring zero i bytes = []
ring (suc n) i bytes = get_or bytes (i % 4096) 0 ∷ ring n (i + 1) bytes

-- The bytes that wait, oldest first.
abbrev pub contents : Cbuf → List ℕ
contents c = ring c.len c.pos c.buffer

-- The sizes are right, and every free place of the buffer is 0.
pub record IsClean (c : Cbuf) : Type 0 where
  pub bytes : length c.buffer ≡ 4096
  pub pos_in : c.pos < 4096
  pub len_in : c.len ≤ 4096
  pub wiped : (j : ℕ) → c.pos + c.len ≤ j → j < c.pos + 4096 → get_or c.buffer (j % 4096) 0 ≡ 0

pub get_or-replicate : (n j : ℕ) → get_or {A = ℕ} (replicate n 0) j 0 ≡ 0
get_or-replicate zero j = refl
get_or-replicate (suc n) zero = refl
get_or-replicate (suc n) (suc j) = get_or-replicate n j

pub empty-IsClean : IsClean empty_cbuf
empty-IsClean = record {
  bytes = length-replicate {A = ℕ} 4096 0;
  pos_in = omega arith;
  len_in = omega arith;
  wiped = λ j l u. get_or-replicate 4096 (j % 4096);
}

pub length-bzero : (n i : ℕ) (bytes : List ℕ) → length (bzero n i bytes) ≡ length bytes
unfolding bzero
length-bzero zero i bytes = refl
length-bzero (suc n) i bytes = length-bzero n (i + 1) (set bytes i 0) ∙ length-set bytes i 0

pub bzero-outside :
    (n i j : ℕ) (bytes : List ℕ)
    → (j < i) ⊎ (i + n ≤ j)
    → get_or (bzero n i bytes) j 0 ≡ get_or bytes j 0
unfolding bzero
bzero-outside zero i j bytes h = refl
bzero-outside (suc n) i j bytes h =
    bzero-outside n (i + 1) j (set bytes i 0) (ground arith)
    ∙ get_or-set_ne bytes i j 0 0 (ground arith)

pub zero-set : (bytes : List ℕ) (i j : ℕ) → get_or bytes j 0 ≡ 0 → get_or (set bytes i 0) j 0 ≡ 0
zero-set [] i j h = h
zero-set (b ∷ bytes) zero zero h = refl
zero-set (b ∷ bytes) zero (suc j) h = h
zero-set (b ∷ bytes) (suc i) zero h = h
zero-set (b ∷ bytes) (suc i) (suc j) h = zero-set bytes i j h

pub bzero-keeps :
    (n i j : ℕ) (bytes : List ℕ) → get_or bytes j 0 ≡ 0 → get_or (bzero n i bytes) j 0 ≡ 0
unfolding bzero
bzero-keeps zero i j bytes h = h
bzero-keeps (suc n) i j bytes h = bzero-keeps n (i + 1) j (set bytes i 0) (zero-set bytes i j h)

pub set_zero : (bytes : List ℕ) (i : ℕ) → get_or (set bytes i 0) i 0 ≡ 0
set_zero [] i = refl
set_zero (b ∷ bytes) zero = refl
set_zero (b ∷ bytes) (suc i) = set_zero bytes i

pub bzero-inside :
    (n i j : ℕ) (bytes : List ℕ) → i ≤ j → j < i + n → get_or (bzero n i bytes) j 0 ≡ 0
unfolding bzero
bzero-inside zero i j bytes h l = absurd (omega arith)
bzero-inside (suc n) i j bytes h l = elim (split i j h) [
  | inl e ↦
      let p : get_or (set bytes i 0) j 0 ≡ 0 =
        ap (λ k. get_or (set bytes i 0) k 0) (sym e) ∙ set_zero bytes i in
      bzero-keeps n (i + 1) j (set bytes i 0) p
  | inr m ↦ bzero-inside n (i + 1) j (set bytes i 0) m (omega arith)
]
  where
    split : (i j : ℕ) → i ≤ j → (i ≡ j) ⊎ (i + 1 ≤ j)
    split i j h = omega arith

-- Without wrapping around, the ring is a part of the array.
pub ring-read : (n i : ℕ) (bytes : List ℕ) → i + n ≤ 4096 → ring n i bytes ≡ read_at n i bytes
unfolding read_at
ring-read zero i bytes h = refl
ring-read (suc n) i bytes h =
    let e : i % 4096 ≡ i = omega arith in
    ap₂ ◌∷◌ (ap (λ k. get_or bytes k 0) e) (ring-read n (i + 1) bytes (omega arith))

pub ring-append :
    (m n i : ℕ) (bytes : List ℕ) → ring (m + n) i bytes ≡ ring m i bytes ++ ring n (i + m) bytes
ring-append zero n i bytes = ap₂ (λ (a b : ℕ). ring a b bytes) (omega arith) (omega arith)
ring-append (suc m) n i bytes =
    ap (λ (k : ℕ). ring k i bytes) one_more
    ∙ ap (λ r. get_or bytes (i % 4096) 0 ∷ r)
        (ring-append m n (i + 1) bytes
          ∙ ap (λ (k : ℕ). ring m (i + 1) bytes ++ ring n k bytes) (omega arith))
  where
    one_more : suc m + n ≡ suc (m + n)
    one_more = omega arith

pub ring-mod : (n i j : ℕ) (bytes : List ℕ) → i % 4096 ≡ j % 4096 → ring n i bytes ≡ ring n j bytes
ring-mod zero i j bytes h = refl
ring-mod (suc n) i j bytes h =
    ap₂ ◌∷◌ (ap (λ k. get_or bytes k 0) h) (ring-mod n (i + 1) (j + 1) bytes (omega arith))

pub ring-agree :
    (n i : ℕ) (old new : List ℕ)
    → ((j : ℕ) → i ≤ j → j < i + n → get_or new (j % 4096) 0 ≡ get_or old (j % 4096) 0)
    → ring n i new ≡ ring n i old
ring-agree zero i old new h = refl
ring-agree (suc n) i old new h =
    ap₂ ◌∷◌ (h i (omega arith) (omega arith))
      (ring-agree n (i + 1) old new (λ j l u. h j (omega arith) (omega arith)))

pub read_at-store :
    (src : List ℕ) (i : ℕ) (bytes : List ℕ)
    → i + length src ≤ length bytes
    → read_at (length src) i (store src i bytes) ≡ src
unfolding read_at store
read_at-store [] i bytes h = refl
read_at-store (b ∷ src) i bytes h =
    ap₂ ◌∷◌
      (store-outside src (i + 1) i (set bytes i b) (inl (omega arith))
        ∙ get_or-set_self bytes i b 0 (omega arith))
      (read_at-store src (i + 1) (set bytes i b) (omega (arith, length-set bytes i b)))
