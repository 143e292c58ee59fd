-- ===== src/Hash/Digest.antt =====
-- The digests that the hash engine of crypto_hash.c gives.
use mox_boot_builder.Prelude.{
  ℕ, zero, suc, ◌*◌, ◌/◌, ◌≡◌, ◌∙◌, refl, ap, arith, some, List, [], ◌∷◌, length, ltb, ◌≤◌, ◌⊎◌,
  inl, inr, sym, Bool-cases, true,
}
use mox_boot_builder.Bus.{Bus}
use mox_boot_builder.Bus.Wait.{◌>>=◌, ◌>>◌, give, follow-some, load_words}
use mox_boot_builder.Hash.{
  HashId, na, md5, sha1, sha224, sha256, sha384, sha512, hash_digest, hash_digest_h, hash_final,
  digest_pairs, hash_init, hash_update, hw_alg, hw_hash,
}

-- The number of words in a digest of an algorithm.
abbrev pub digest_words : HashId → ℕ
digest_words na = 0
digest_words md5 = 4
digest_words sha1 = 5
digest_words sha224 = 7
digest_words sha256 = 8
digest_words sha384 = 12
digest_words sha512 = 16

module _ {S : Type 0} (bus : Bus S) where
  length-load_words :
      (at : ℕ → ℕ) (n i : ℕ) (s t : S) (ws : List ℕ)
      → load_words bus at i n s ≡ some (ws, t)
      → length ws ≡ n
  unfolding load_words
  length-load_words at zero i s t ws h = let nothing : [] ≡ ws = cc in sym (ap length nothing)
  length-load_words at (suc n) i s t ws h =
      let (v, s1) = bus.read (at i) s in
      let (rest, s2, ran, last) =
        follow-some (load_words bus at (suc i) n) (λ r. give (v ∷ r)) s1 h in
      let all : v ∷ rest ≡ ws = cc in
      sym (ap length all) ∙ ap suc (length-load_words at n (suc i) s1 s2 rest ran)

  length-digest_pairs :
      (n j : ℕ) (s t : S) (ws : List ℕ) → digest_pairs bus n j s ≡ some (ws, t) → length ws ≡ 2 * n
  unfolding digest_pairs
  length-digest_pairs zero j s t ws h = let nothing : [] ≡ ws = cc in sym (ap length nothing)
  length-digest_pairs (suc n) j s t ws h =
      let (hi, s1) = bus.read (hash_digest_h j) s in
      let (lo, s2) = bus.read (hash_digest j) s1 in
      let (rest, s3, ran, last) =
        follow-some (digest_pairs bus n (suc j)) (λ r. give (hi ∷ lo ∷ r)) s2 h in
      let all : hi ∷ lo ∷ rest ≡ ws = cc in
      let tail = length-digest_pairs n (suc j) s2 s3 rest ran in
      sym (ap length all) ∙ omega (arith, tail)

  length-hash_final :
      (d : ℕ) (s t : S) (g : List ℕ)
      → (d ≤ 8) ⊎ (2 * (d / 2) ≡ d)
      → hash_final bus d s ≡ some (g, t)
      → length g ≡ d
  unfolding hash_final
  length-hash_final d s t g even h = elim (Bool-cases (ltb 8 d)) [
    | inl long ↦ let twice = length-digest_pairs (d / 2) 0 s t g (rw long at h) in ground arith
    | inr short ↦ length-load_words hash_digest d 0 s t g (rw short at h)
  ]

  hw_alg-length :
      (fuel alg d msg size : ℕ) (s t : S) (digest : List ℕ)
      → (d ≤ 8) ⊎ (2 * (d / 2) ≡ d)
      → hw_alg bus fuel alg d msg size s ≡ some (some digest, t)
      → length digest ≡ d
  hw_alg-length fuel alg d msg size s t digest even h =
      let (u1, s1, r1, h1) =
        follow-some (hash_init bus fuel alg size)
          (λ _. hash_update bus fuel msg size true >> (hash_final bus d >>= λ g. give (some g))) s
          h in
      let (u2, s2, r2, h2) =
        follow-some (hash_update bus fuel msg size true)
          (λ _. hash_final bus d >>= λ g. give (some g)) s1 h1 in
      let (g, s3, r3, h3) = follow-some (hash_final bus d) (λ g. give (some g)) s2 h2 in
      let same : g ≡ digest = cc in sym (ap length same) ∙ length-hash_final d s2 s3 g even r3

  -- A digest that the engine gives has the number of words of its algorithm, whatever the engine's
  -- registers hold.
  pub hw_hash-length :
      (fuel : ℕ) (id : HashId) (msg size : ℕ) (s t : S) (digest : List ℕ)
      → hw_hash bus fuel id msg size s ≡ some (some digest, t)
      → length digest ≡ digest_words id
  unfolding hw_hash
  hw_hash-length fuel na msg size s t digest h = cc
  hw_hash-length fuel md5 msg size s t digest h =
      hw_alg-length fuel 3 4 msg size s t digest (inl (omega arith)) h
  hw_hash-length fuel sha1 msg size s t digest h =
      hw_alg-length fuel 0 5 msg size s t digest (inl (omega arith)) h
  hw_hash-length fuel sha224 msg size s t digest h =
      hw_alg-length fuel 2 7 msg size s t digest (inl (omega arith)) h
  hw_hash-length fuel sha256 msg size s t digest h =
      hw_alg-length fuel 1 8 msg size s t digest (inl (omega arith)) h
  hw_hash-length fuel sha384 msg size s t digest h =
      hw_alg-length fuel 5 12 msg size s t digest (inr refl) h
  hw_hash-length fuel sha512 msg size s t digest h =
      hw_alg-length fuel 4 16 msg size s t digest (inr refl) h
