-- ===== src/Entropy/Source.antt =====
-- The entropy device of ebg.c: `ebg_next` and `ebg_rand_sync`, which wait for it.
use mox_boot_builder.Prelude.{
  ℕ, zero, suc, ◌+◌, ◌-◌, ◌^◌, none, some, List, [], ◌∷◌, ◌++◌, bit_and, bit_or, ◌==◌, min,
  if◌then◌else◌,
}
use mox_boot_builder.Bits.{u8, ◌>>>◌}
use mox_boot_builder.Bus.{Bus}
use mox_boot_builder.Bus.Wait.{Wait, ◌>>=◌, give}
use mox_boot_builder.Entropy.{Cbuf, cbuf_pull}

abbrev pub ebg_ctrl : ℕ
ebg_ctrl = 0x40002c00

abbrev pub ebg_entropy : ℕ
ebg_entropy = 0x40002c04

-- `reg` is the static variable of that name, the control register's value.
module _ {S : Type 0} (bus : Bus S) (fuel reg : ℕ) where
  -- `ebg_next` that waits, with `n` rounds left.
  unfoldable pub poll_entropy : ℕ → Wait S ℕ
  poll_entropy zero s = none
  poll_entropy (suc n) s =
      let (v, s1) = bus.read ebg_entropy s in
      let again = poll_entropy n (bus.pause 100 s1) in
      if bit_and v (2 ^ 31) == 0
      then again
      else some (bit_and v 0xffff, bus.write (bit_or reg 0x1000) ebg_ctrl s1)

  -- `ebg_next(1, &val)`
  abbrev pub ebg_next : Wait S ℕ
  ebg_next = poll_entropy fuel

  -- The loop of `ebg_rand_sync` over pairs of bytes, and the odd byte at its end.
  unfoldable pub rand_pairs : ℕ → Wait S (List ℕ)
  rand_pairs zero s = some ([], s)
  rand_pairs (suc zero) s = (ebg_next >>= λ v. give (bit_and v 0xff ∷ [])) s
  rand_pairs (suc (suc n)) s =
      (ebg_next >>= λ v. rand_pairs n >>= λ bs. give (u8 v ∷ u8 (v >>> 8) ∷ bs)) s

  -- The bytes that the buffer of random bytes did not have, from the address `addr` on.
  unfoldable pub rand_rest : ℕ → ℕ → Wait S (List ℕ)
  rand_rest addr zero = rand_pairs zero
  rand_rest addr (suc n) =
      if bit_and addr 1 == 0
      then rand_pairs (suc n)
      else (ebg_next >>= λ v. rand_pairs n >>= λ bs. give (bit_and v 0xff ∷ bs))

  -- `ebg_rand_sync`: the bytes stored from `addr` on, and the buffer `ebg_cbuf` after it.
  unfoldable pub ebg_rand_sync : ℕ → ℕ → Cbuf → Wait S (List ℕ × Cbuf)
  ebg_rand_sync addr size c =
      let (got, c') = cbuf_pull size c in
      let pull = min c.len size in
      rand_rest (addr + pull) (size - pull) >>= λ bs. give (got ++ bs, c')
