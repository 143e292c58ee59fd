-- ===== src/Entropy/Mixed.antt =====
-- The mixed random numbers of ebg.c: `paranoid_rand` and `ebg_process`. The hash of a message is a
-- parameter: the engine reads the message from memory by itself, which the bus does not show.
use mox_boot_builder.Prelude.{
  ℕ, zero, suc, ◌+◌, ◌-◌, ◌/◌, ◌%◌, ◌^◌, ◌&&◌, Option, none, some, List, [], ◌∷◌, ◌++◌, bit_and,
  bit_or, bit_xor, ◌==◌, ltb, leb, if◌then◌else◌, get_or, take, drop, min,
}
use mox_boot_builder.Bits.{u8, ◌>>>◌}
use mox_boot_builder.Bus.{Bus}
use mox_boot_builder.Bus.Wait.{Wait, ◌>>=◌, ◌>>◌, give, load, put, sleep, set_bits}
use mox_boot_builder.Crc.{load_word}
use mox_boot_builder.Bignum.{bn_add}
use mox_boot_builder.Entropy.{Cbuf, cbuf_size, cbuf_free_space, cbuf_pull, cbuf_push}
use mox_boot_builder.Entropy.Source.{ebg_ctrl, ebg_entropy, ebg_next, ebg_rand_sync}

-- The static variables of ebg.c, with `digest` for the last 16 words of its buffer, and `carry` for
-- the variable `c` of `paranoid_rand_64`.
pub record Ebg : Type 0 where
  pub ebg_cbuf : Cbuf
  pub rand_cbuf : Cbuf
  pub digest : List ℕ
  pub carry : ℕ

-- An array of bytes as words of this little-endian processor, and the bytes of words.
unfoldable pub words_of : List ℕ → List ℕ
words_of (b0 ∷ b1 ∷ b2 ∷ b3 ∷ bytes) = load_word b0 b1 b2 b3 ∷ words_of bytes
words_of bytes = []

unfoldable pub bytes_of : List ℕ → List ℕ
bytes_of [] = []
bytes_of (w ∷ ws) = u8 w ∷ u8 (w >>> 8) ∷ u8 (w >>> 16) ∷ u8 (w >>> 24) ∷ bytes_of ws

-- `xor`
unfoldable pub xor_words : List ℕ → List ℕ → List ℕ
xor_words (d ∷ ds) (w ∷ ws) = bit_xor d w ∷ xor_words ds ws
xor_words ds ws = ds

-- `if (c) xor(…); else c ^= bn_add(…);`
unfoldable pub combine : ℕ → List ℕ → List ℕ → List ℕ × ℕ
combine c dgst block =
    if c == 0
    then (let (sum, out) = bn_add dgst block in (sum, bit_xor c out))
    else (xor_words dgst block, c)

-- A round of the loop of `paranoid_rand_64` that mixes 16 words into the digest.
unfoldable pub mix : ℕ → List ℕ → List ℕ × ℕ → List ℕ × ℕ
mix round block (dgst, c) =
    let (mixed, c1) = combine c dgst block in
    (mixed, bit_xor c1 (bit_and (get_or mixed 0 0 >>> round) 1))

-- The loop, with `n` rounds left.
unfoldable pub mix_all : ℕ → ℕ → List ℕ → List ℕ × ℕ → List ℕ × ℕ
mix_all zero round words d = d
mix_all (suc n) round words d = mix_all n (round + 1) (drop 16 words) (mix round (take 16 words) d)

-- `setbitsl(ENGINE_CTRL, …)` of engine.h, for the engine with the number `e`
module _ {S : Type 0} (bus : Bus S) where
  abbrev pub engine_reset : ℕ → Wait S (Unit {0})
  engine_reset e = do
    set_bits bus 0x40000400 (2 ^ e) (2 ^ e)
    sleep bus 10000
    set_bits bus 0x40000400 0 (2 ^ e)

  abbrev pub engine_clk_enable : ℕ → Wait S (Unit {0})
  engine_clk_enable e = set_bits bus 0x40000400 (2 ^ (e + 16)) (2 ^ (e + 16))

  abbrev pub engine_clk_disable : ℕ → Wait S (Unit {0})
  engine_clk_disable e = set_bits bus 0x40000400 0 (2 ^ (e + 16))

  -- Values that are thrown away.
  unfoldable pub discard : ℕ → ℕ → ℕ → Wait S (Unit {0})
  discard fuel reg zero s = some (tt, s)
  discard fuel reg (suc n) s = (ebg_next bus fuel reg >>= λ _. discard fuel reg n) s

  -- `ebg_init`, for the engine 10; the result is the static variable `reg`.
  unfoldable pub ebg_init : ℕ → Wait S ℕ
  ebg_init fuel = do
    engine_clk_disable 10
    engine_clk_enable 10
    engine_reset 10
    old ← load bus ebg_ctrl
    let r0 = bit_and old 0x901f
    put bus r0 ebg_ctrl
    let r1 = bit_or r0 0x200
    put bus r1 ebg_ctrl
    sleep bus 400000
    let r2 = bit_or r1 0x80
    put bus r2 ebg_ctrl
    let r3 = bit_or r2 0x400
    put bus r3 ebg_ctrl
    let r4 = bit_or r3 0x03104840
    put bus r4 ebg_ctrl
    sleep bus 100000
    put bus (bit_or r4 0x1000) ebg_ctrl
    discard fuel r4 16
    x ← ebg_next bus fuel r4
    discard fuel r4 (bit_and x 0x1f)
    give r4

module _ {S : Type 0} (bus : Bus S) (hw_sha512 : List ℕ → Wait S (List ℕ))
    (fuel reg buf_addr : ℕ) where
  -- `paranoid_rand_64`: the bytes of the digest.
  unfoldable pub paranoid_rand_64 : Ebg → Wait S (List ℕ × Ebg)
  paranoid_rand_64 e = do
    (bytes, cbuf) ← ebg_rand_sync bus fuel reg buf_addr 512 e.ebg_cbuf
    dgst ← hw_sha512 (bytes ++ bytes_of e.digest)
    let mixed = mix_all 8 0 (words_of bytes) (dgst, e.carry)
    give (bytes_of mixed.0, record e { ebg_cbuf = cbuf; digest = dgst; carry = mixed.1 })

  -- The loop of `paranoid_rand` over blocks of 64 bytes, and the rest, with `n` blocks left.
  unfoldable pub rand_blocks : ℕ → ℕ → Ebg → Wait S (List ℕ × Ebg)
  rand_blocks zero rest e = if rest == 0 then give ([], e) else (do
    (dgst, e1) ← paranoid_rand_64 e
    let kept = cbuf_push (64 - rest) (drop rest dgst) e1.rand_cbuf
    give (take rest dgst, record e1 { rand_cbuf = kept }))
  rand_blocks (suc n) rest e = do
    (dgst, e1) ← paranoid_rand_64 e
    (more, e2) ← rand_blocks n rest e1
    give (dgst ++ more, e2)

  -- `paranoid_rand`: the bytes that are stored.
  unfoldable pub paranoid_rand : ℕ → Ebg → Wait S (List ℕ × Ebg)
  paranoid_rand size e =
      let (got, cbuf) = cbuf_pull size e.rand_cbuf in
      let left = size - min e.rand_cbuf.len size in
      do
        (more, e1) ← rand_blocks (left / 64) (left % 64) (record e { rand_cbuf = cbuf })
        give (got ++ more, e1)

  -- `ebg_next(0, &val)`: none is an error.
  unfoldable pub ebg_try : Wait S (Option ℕ)
  ebg_try s =
      let (v, s1) = bus.read ebg_entropy s in
      if bit_and v (2 ^ 31) == 0
      then some (none, s1)
      else some (some (bit_and v 0xffff), bus.write (bit_or reg 0x1000) ebg_ctrl s1)

  abbrev pub push_value : Ebg → Option ℕ → Wait S Ebg
  push_value e none = give e
  push_value e (some v) =
      give (record e { ebg_cbuf = cbuf_push 2 (u8 v ∷ u8 (v >>> 8) ∷ []) e.ebg_cbuf })

  -- The end of `ebg_process`.
  abbrev pub collect : Ebg → Wait S Ebg
  collect e = if ltb (cbuf_size - 2) e.ebg_cbuf.len then give e else (ebg_try >>= push_value e)

  unfoldable pub ebg_process : Ebg → Wait S Ebg
  ebg_process e =
      if leb 512 e.ebg_cbuf.len && leb 64 (cbuf_free_space e.rand_cbuf)
      then (do
        (dgst, e1) ← paranoid_rand_64 e
        collect (record e1 { rand_cbuf = cbuf_push 64 dgst e1.rand_cbuf }))
      else collect e
