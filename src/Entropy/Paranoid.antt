-- ===== src/Entropy/Paranoid.antt =====
-- `paranoid_rand` of ebg.c fills the caller's buffer and keeps its ring buffers sound.
use mox_boot_builder.Prelude.{
  ℕ, zero, suc, ◌+◌, ◌-◌, ◌*◌, ◌/◌, ◌%◌, ◌≤◌, ◌<◌, ◌≡◌, refl, ap, ◌∙◌, arith, inl, inr, Bool-cases,
  some, List, [], ◌∷◌, ◌++◌, ◌==◌, take, drop, min, length, length-append, length-take, length-drop,
}
use mox_boot_builder.Bus.{Bus}
use mox_boot_builder.Bus.Wait.{Wait, ◌>>=◌, give, after-some}
use mox_boot_builder.Bignum.{bn_add, add_words, carry_of}
use mox_boot_builder.Entropy.{Cbuf, cbuf_pull, cbuf_push}
use mox_boot_builder.Entropy.Ring.{IsClean, contents}
use mox_boot_builder.Entropy.Fifo.{cbuf_pull-Takes, cbuf_push-appends}
use mox_boot_builder.Entropy.Source.{ebg_rand_sync}
use mox_boot_builder.Entropy.Fill.{HasEntropy, ebg_rand_sync-fills}
use mox_boot_builder.Entropy.Mixed.{
  Ebg, words_of, bytes_of, xor_words, combine, mix, mix_all, paranoid_rand_64, rand_blocks,
  paranoid_rand,
}

length-add_words :
    (c : ℕ) (dst src : List ℕ)
    → length dst ≤ length src
    → length (add_words c dst src).0 ≡ length dst
unfolding add_words
length-add_words c [] src h = refl
length-add_words c (d ∷ dst) [] h = absurd (omega arith)
length-add_words c (d ∷ dst) (s ∷ src) h =
    ap suc (length-add_words (carry_of d s c) dst src (omega arith))

length-xor_words : (dst src : List ℕ) → length (xor_words dst src) ≡ length dst
unfolding xor_words
length-xor_words [] src = refl
length-xor_words (d ∷ dst) [] = refl
length-xor_words (d ∷ dst) (s ∷ src) = ap suc (length-xor_words dst src)

length-combine :
    (c : ℕ) (dgst block : List ℕ)
    → length dgst ≤ length block
    → length (combine c dgst block).0 ≡ length dgst
unfolding combine bn_add
length-combine c dgst block h = elim (Bool-cases (c == 0)) [
  | inl e ↦ rw e (length-add_words 0 dgst block h)
  | inr e ↦ rw e (length-xor_words dgst block)
]

-- Each round takes a block as long as the digest.
length-mix_all :
    (n round : ℕ) (words : List ℕ) (d : List ℕ × ℕ)
    → length d.0 ≡ 16
    → 16 * n ≤ length words
    → length (mix_all n round words d).0 ≡ 16
unfolding mix_all mix
length-mix_all zero round words d h enough = h
length-mix_all (suc n) round words d h enough =
    let block : length d.0 ≤ length (take 16 words) = omega (arith, length-take 16 words) in
    length-mix_all n (round + 1) (drop 16 words) (mix round (take 16 words) d)
      (length-combine d.1 d.0 (take 16 words) block ∙ h) (omega (arith, length-drop 16 words))

length-words_of : (n : ℕ) (bytes : List ℕ) → length bytes ≡ 4 * n → length (words_of bytes) ≡ n
unfolding words_of
length-words_of zero [] h = refl
length-words_of zero (a ∷ bytes) h = absurd (omega arith)
length-words_of (suc n) [] h = absurd (omega arith)
length-words_of (suc n) (a ∷ []) h = absurd (omega arith)
length-words_of (suc n) (a ∷ b ∷ []) h = absurd (omega arith)
length-words_of (suc n) (a ∷ b ∷ c ∷ []) h = absurd (omega arith)
length-words_of (suc n) (a ∷ b ∷ c ∷ d ∷ bytes) h = ap suc (length-words_of n bytes (omega arith))

length-bytes_of : (ws : List ℕ) → length (bytes_of ws) ≡ 4 * length ws
unfolding bytes_of
length-bytes_of [] = refl
length-bytes_of (w ∷ ws) = omega (arith, length-bytes_of ws)

-- Both ring buffers are sound, and the last digest has its length.
pub record IsSound (e : Ebg) : Type 0 where
  pub ebg_clean : IsClean e.ebg_cbuf
  pub rand_clean : IsClean e.rand_cbuf
  pub digest_size : length e.digest ≡ 16

module _ {S : Type 0} (bus : Bus S) (hw_sha512 : List ℕ → Wait S (List ℕ))
    (fuel reg buf_addr : ℕ) where
  -- The hash ends and gives 16 words.
  abbrev pub HasDigests : Type 0
  HasDigests =
      (message : List ℕ) (s : S)
      → (r : List ℕ × S) × (hw_sha512 message s ≡ some r) × (length r.0 ≡ 16)

  -- A call that ends with as many bytes as are wanted, and with sound buffers.
  abbrev pub Fills : Wait S (List ℕ × Ebg) → ℕ → S → Type 0
  Fills m n s =
      (out : List ℕ) × (e1 : Ebg) × (s1 : S) × (m s ≡ some ((out, e1), s1))
      × (length out ≡ n)
      × IsSound e1

  module _ (ready : HasEntropy bus fuel reg) (digests : HasDigests) where
    rand_64-Fills :
        (e : Ebg) (s : S)
        → IsSound e
        → Fills (paranoid_rand_64 bus hw_sha512 (suc fuel) reg buf_addr e) 64 s
    unfolding paranoid_rand_64
    rand_64-Fills e s v =
        let (got, new, cbuf, s1, ran1, size1, taken, count, clean) =
          ebg_rand_sync-fills bus fuel reg buf_addr 512 e.ebg_cbuf s ready v.ebg_clean in
        let bytes = got ++ new in
        let (r, ran2, size2) = digests (bytes ++ bytes_of e.digest) s1 in
        let mixed = mix_all 8 0 (words_of bytes) (r.0, e.carry) in
        let finish : List ℕ → List ℕ → Cbuf → Wait S (List ℕ × Ebg) = λ bs dgst c.
          let m = mix_all 8 0 (words_of bs) (dgst, e.carry) in
          give (bytes_of m.0, record e { ebg_cbuf = c; digest = dgst; carry = m.1 }) in
        (
          bytes_of mixed.0,
          record e { ebg_cbuf = cbuf; digest = r.0; carry = mixed.1 },
          r.1,
          after-some (ebg_rand_sync bus (suc fuel) reg buf_addr 512 e.ebg_cbuf)
                (λ x. hw_sha512 (x.0 ++ bytes_of e.digest) >>= λ dgst. finish x.0 dgst x.1) s ran1
              ∙ after-some (hw_sha512 (bytes ++ bytes_of e.digest)) (λ dgst. finish bytes dgst cbuf)
                  s1 ran2,
          length-bytes_of mixed.0
              ∙ ap (λ (k : ℕ). 4 * k)
                  (length-mix_all 8 0 (words_of bytes) (r.0, e.carry) size2
                    (omega (arith, length-words_of 128 bytes size1))),
          record { ebg_clean = clean; rand_clean = v.rand_clean; digest_size = size2 },
        )

    -- What is left of a block of 64 bytes is kept.
    keep_rest :
        (n : ℕ) (block : List ℕ) (e : Ebg)
        → IsSound e
        → length block ≡ 64
        → n ≤ 64
        → IsSound (record e { rand_cbuf = cbuf_push (64 - n) (drop n block) e.rand_cbuf })
    keep_rest n block e v size h =
        let (held, clean) =
          cbuf_push-appends (64 - n) (drop n block) e.rand_cbuf v.rand_clean
            (omega (arith, length-drop n block)) in
        record { ebg_clean = v.ebg_clean; rand_clean = clean; digest_size = v.digest_size }

    blocks-Fill :
        (n rest : ℕ) (e : Ebg) (s : S)
        → rest < 64
        → IsSound e
        → Fills (rand_blocks bus hw_sha512 (suc fuel) reg buf_addr n rest e) (64 * n + rest) s
    unfolding rand_blocks
    blocks-Fill zero rest e s h v =
        let block = paranoid_rand_64 bus hw_sha512 (suc fuel) reg buf_addr e in
        let last : List ℕ × Ebg → Wait S (List ℕ × Ebg) = λ x. give (
          take rest x.0,
          record x.1 { rand_cbuf = cbuf_push (64 - rest) (drop rest x.0) x.1.rand_cbuf },
        ) in
        elim (Bool-cases (rest == 0)) [
          | inl none_left ↦ rw none_left ([], e, s, refl, ground arith, v)
          | inr some_left ↦
              let (out, e1, s1, ran, size, v1) = rand_64-Fills e s v in
              rw some_left (
                take rest out,
                record e1 { rand_cbuf = cbuf_push (64 - rest) (drop rest out) e1.rand_cbuf },
                s1,
                after-some block last s ran,
                omega (arith, length-take rest out, size),
                keep_rest rest out e1 v1 size (omega arith),
              )
        ]
    blocks-Fill (suc n) rest e s h v =
        let block = paranoid_rand_64 bus hw_sha512 (suc fuel) reg buf_addr e in
        let (out, e1, s1, ran, size, v1) = rand_64-Fills e s v in
        let (more, e2, s2, ran2, size2, v2) = blocks-Fill n rest e1 s1 h v1 in
        let go : Ebg → Wait S (List ℕ × Ebg) =
          λ d. rand_blocks bus hw_sha512 (suc fuel) reg buf_addr n rest d in
        let join : List ℕ → List ℕ × Ebg → Wait S (List ℕ × Ebg) = λ bs x. give (bs ++ x.0, x.1) in
        (
          out ++ more,
          e2,
          s2,
          after-some block (λ x. go x.1 >>= join x.0) s ran ∙ after-some (go e1) (join out) s1 ran2,
          omega (arith, length-append out more, size, size2),
          v2,
        )

    -- If the entropy device has a value whenever it is asked and the hash ends with 16 words, one
    -- round of each wait is enough, and `paranoid_rand` stores exactly as many bytes as were asked
    -- for, of which the first are those that wait in its buffer, the oldest first; afterwards both
    -- ring buffers are sound again.
    pub paranoid_rand-fills :
        (size : ℕ) (e : Ebg) (s : S)
        → IsSound e
        → (got more rest : List ℕ) × (e1 : Ebg) × (s1 : S) × (paranoid_rand bus hw_sha512
              (suc fuel)
              reg
              buf_addr
              size
              e
              s
            ≡ some ((got ++ more, e1), s1))
          × (length (got ++ more) ≡ size)
          × (contents e.rand_cbuf ≡ got ++ rest)
          × (length got ≡ min e.rand_cbuf.len size)
          × IsSound e1
    unfolding paranoid_rand
    paranoid_rand-fills size e s v =
        let (taken, count, clean) = cbuf_pull-Takes size e.rand_cbuf v.rand_clean in
        let pulled = cbuf_pull size e.rand_cbuf in
        let left = size - min e.rand_cbuf.len size in
        let e0 = record e { rand_cbuf = pulled.1 } in
        let v0 : IsSound e0 = record {
          ebg_clean = v.ebg_clean;
          rand_clean = clean;
          digest_size = v.digest_size;
        } in
        let (more, e1, s1, ran, filled, v1) =
          blocks-Fill (left / 64) (left % 64) e0 s (omega arith) v0 in
        let join : List ℕ × Ebg → Wait S (List ℕ × Ebg) = λ x. give (pulled.0 ++ x.0, x.1) in
        (
          pulled.0,
          more,
          contents pulled.1,
          e1,
          s1,
          after-some (rand_blocks bus hw_sha512 (suc fuel) reg buf_addr (left / 64) (left % 64) e0)
              join s ran,
          omega (arith, length-append pulled.0 more, count, filled),
          taken,
          count,
          v1,
        )
