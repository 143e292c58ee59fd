-- ===== src/Entropy/Fill.antt =====
-- `ebg_rand_sync` of ebg.c fills the whole of the caller's buffer.
use mox_boot_builder.Prelude.{
  ℕ, zero, suc, ◌+◌, ◌-◌, ◌^◌, ◌≡◌, refl, ap, ◌∙◌, arith, inl, inr, Bool-cases, false, some, List,
  [], ◌∷◌, ◌++◌, ◌==◌, bit_and, length, length-append, min,
}
use mox_boot_builder.Bits.{u8, ◌>>>◌}
use mox_boot_builder.Bus.{Bus}
use mox_boot_builder.Entropy.{Cbuf, cbuf_pull}
use mox_boot_builder.Entropy.Ring.{IsClean, contents}
use mox_boot_builder.Entropy.Fifo.{cbuf_pull-Takes}
use mox_boot_builder.Bus.Wait.{Wait, ◌>>=◌, give, after-some}
use mox_boot_builder.Entropy.Source.{
  ebg_entropy, poll_entropy, ebg_next, rand_pairs, rand_rest, ebg_rand_sync,
}

module _ {S : Type 0} (bus : Bus S) (fuel reg : ℕ) where
  -- The device has a value whenever it is asked.
  abbrev pub HasEntropy : Type 0
  HasEntropy = (s : S) → (bit_and (bus.read ebg_entropy s).0 (2 ^ 31) == 0) ≡ false

  next-gives : HasEntropy → (s : S) → (r : ℕ × S) × (ebg_next bus (suc fuel) reg s ≡ some r)
  unfolding poll_entropy
  next-gives ready s = rw (ready s) (_, refl)

  pairs-fill :
      HasEntropy
      → (n : ℕ) (s : S)
      → (r : List ℕ × S) × (rand_pairs bus (suc fuel) reg n s ≡ some r) × (length r.0 ≡ n)
  unfolding rand_pairs
  pairs-fill ready zero s = (([], s), refl, refl)
  pairs-fill ready (suc zero) s =
      let (r, p) = next-gives ready s in
      let k : ℕ → Wait S (List ℕ) = λ v. give (bit_and v 0xff ∷ []) in
      ((bit_and r.0 0xff ∷ [], r.1), after-some (ebg_next bus (suc fuel) reg) k s p, refl)
  pairs-fill ready (suc (suc n)) s =
      let (r, p) = next-gives ready s in
      let (t, q, l) = pairs-fill ready n r.1 in
      let rest = rand_pairs bus (suc fuel) reg n in
      let join : ℕ → List ℕ → Wait S (List ℕ) = λ v bs. give (u8 v ∷ u8 (v >>> 8) ∷ bs) in
      (
        (u8 r.0 ∷ u8 (r.0 >>> 8) ∷ t.0, t.1),
        after-some (ebg_next bus (suc fuel) reg) (λ v. rest >>= join v) s p
            ∙ after-some rest (join r.0) r.1 q,
        ap (λ (k : ℕ). suc (suc k)) l,
      )

  rest-fills :
      HasEntropy
      → (addr n : ℕ) (s : S)
      → (r : List ℕ × S) × (rand_rest bus (suc fuel) reg addr n s ≡ some r) × (length r.0 ≡ n)
  unfolding rand_rest
  rest-fills ready addr zero s = pairs-fill ready zero s
  rest-fills ready addr (suc n) s = elim (Bool-cases (bit_and addr 1 == 0)) [
    | inl e ↦ rw e (pairs-fill ready (suc n) s)
    | inr e ↦
        let (r, p) = next-gives ready s in
        let (t, q, l) = pairs-fill ready n r.1 in
        let rest = rand_pairs bus (suc fuel) reg n in
        let join : ℕ → List ℕ → Wait S (List ℕ) = λ v bs. give (bit_and v 0xff ∷ bs) in
        rw e (
          (bit_and r.0 0xff ∷ t.0, t.1),
          after-some (ebg_next bus (suc fuel) reg) (λ v. rest >>= join v) s p
              ∙ after-some rest (join r.0) r.1 q,
          ap (λ (k : ℕ). suc k) l,
        )
  ]

  -- If the device has a value whenever it is asked, one round of each wait is enough, and
  -- `ebg_rand_sync` stores exactly as many bytes as were asked for, whether the address is odd or
  -- even: first the oldest that wait in the buffer, which keeps the others and none of these.
  pub ebg_rand_sync-fills :
      (addr size : ℕ) (c : Cbuf) (s : S)
      → HasEntropy
      → IsClean c
      → (got new : List ℕ) × (c' : Cbuf) × (s' : S) × (ebg_rand_sync bus
            (suc fuel)
            reg
            addr
            size
            c
            s
          ≡ some ((got ++ new, c'), s'))
        × (length (got ++ new) ≡ size)
        × (contents c ≡ got ++ contents c')
        × (length got ≡ min c.len size)
        × IsClean c'
  unfolding ebg_rand_sync
  ebg_rand_sync-fills addr size c s ready v =
      let (taken, count, clean) = cbuf_pull-Takes size c v in
      let pull = min c.len size in
      let (r, p, l) = rest-fills ready (addr + pull) (size - pull) s in
      let all : length ((cbuf_pull size c).0 ++ r.0) ≡ size =
        length-append (cbuf_pull size c).0 r.0 ∙ omega (arith, count, l) in
      let join : List ℕ → Wait S (List ℕ × Cbuf) =
        λ bs. give ((cbuf_pull size c).0 ++ bs, (cbuf_pull size c).1) in
      let run = after-some (rand_rest bus (suc fuel) reg (addr + pull) (size - pull)) join s p in
      ((cbuf_pull size c).0, r.0, (cbuf_pull size c).1, r.1, run, all, taken, count, clean)
