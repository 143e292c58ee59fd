-- ===== src/Efuse/Raw.antt =====
-- The register sequences of efuse.c: reading a row, and enabling and disabling programming.
use mox_boot_builder.Prelude.{
  ℕ, zero, suc, ◌-◌, ◌^◌, Bool, true, false, bit_and, bit_or, ◌==◌, ◌!=◌, leb, ltb, ◌||◌,
  if◌then◌else◌,
}
use mox_boot_builder.Bits.{◌<<◌, ◌>>>◌}
use mox_boot_builder.Bus.{Bus, ok, err, Io, ◌>>=◌, ◌>>◌, pure, readl, writel, ndelay, setbitsl}
use mox_boot_builder.Mbox.Status.{etimedout}
use mox_boot_builder.Efuse.{
  Row, efuse_ctrl, efuse_rw, efuse_d0, efuse_d1, efuse_aux, efuse_row_mask0, efuse_row_mask1,
  efuse_master_ctrl, sec_status,
}

module _ {S : Type 0} (bus : Bus S) where
  -- `if (val) { … }`: the data registers are read only for a caller that wants the value.
  abbrev read_value : Bool → Io S ℕ
  read_value false = pure 0
  read_value true = do
    high ← readl bus efuse_d1
    low ← readl bus efuse_d0
    pure (bit_or (high << 32) low)

  -- The polling loop of `_efuse_raw_read`, with `n` rounds left.
  unfoldable pub poll_row : ℕ → Bool → Io S Row
  poll_row zero want s = (err etimedout, s)
  poll_row (suc n) want s =
      (do
        reg ← readl bus efuse_aux
        let again = do ndelay bus 100; poll_row n want
        if bit_and reg (2 ^ 31) == 0
            then again
            else (do v ← read_value want; pure (record { val = v; lock = bit_and reg 0x10 != 0 })))
        s

  -- `_efuse_raw_read`: whatever the poll returned, the sequence is closed before it is.
  unfoldable pub raw_read : ℕ → ℕ → Bool → Io S Row
  unfolding poll_row
  raw_read rwreg ecc_pos want = do
    writel bus 0x4 efuse_ctrl
    setbitsl bus efuse_ctrl 0x8 0x8
    setbitsl bus efuse_ctrl 0x3 0x7
    ndelay bus 300
    writel bus rwreg efuse_rw
    if ecc_pos == 0 then pure tt else setbitsl bus efuse_ctrl (ecc_pos << 24) 0xff000000
    ndelay bus 300
    setbitsl bus efuse_ctrl 0x100 0x100
    ndelay bus 200
    setbitsl bus efuse_ctrl 0 0x100
    λ s. let (res, s1) = poll_row 100000 want s in (res, (setbitsl bus efuse_ctrl 0x4 0x6 s1).1)

  -- `is_secure_boot`
  unfoldable pub is_secure_boot : S → Bool × S
  is_secure_boot s = let (v, s') = bus.read sec_status s in (bit_and v 2 != 0, s')

  -- The bit of `row` in the mask registers. A negative `int` is a word from 2 ^ 31 on.
  unfoldable pub mask_bit : ℕ → S → Bool × S
  mask_bit row s =
      if ltb row 32 || leb (2 ^ 31) row
      then (let (v, s') = bus.read efuse_row_mask0 s in (bit_and (v >>> row) 1 != 0, s'))
      else (let (v, s') = bus.read efuse_row_mask1 s in (bit_and (v >>> (row - 32)) 1 != 0, s'))

  -- `is_row_masked`
  unfoldable pub is_row_masked : ℕ → S → Bool × S
  unfolding is_secure_boot mask_bit
  is_row_masked row s =
      let (secure, s') = is_secure_boot s in if secure then mask_bit row s' else (false, s')

  -- The inner loop of `efuse_write_enable`: one bit of the unlocking word in each round.
  unfoldable pub send_bits : ℕ → ℕ → Io S (Unit {0})
  send_bits zero seq_val s = (ok tt, s)
  send_bits (suc n) seq_val s =
      (do
        writel bus (if bit_and seq_val 1 == 1 then 0x300 else 0x100) efuse_ctrl
        writel bus (if bit_and seq_val 1 == 1 then 0x700 else 0x500) efuse_ctrl
        send_bits n (seq_val >>> 1))
        s

  unfoldable pub send_words : ℕ → Io S (Unit {0})
  unfolding send_bits
  send_words zero s = (ok tt, s)
  send_words (suc n) s = (do send_bits 10 0x18d; send_words n) s

  unfoldable pub poll_write : ℕ → Io S (Unit {0})
  poll_write zero s = (err etimedout, s)
  poll_write (suc n) s =
      (do
        reg ← readl bus efuse_aux
        let again = do ndelay bus 100; poll_write n
        if bit_and reg (2 ^ 29) == 0 then again else pure tt)
        s

  unfoldable pub efuse_write_enable : Io S (Unit {0})
  unfolding send_words poll_write
  efuse_write_enable = do
    writel bus 0x0 efuse_ctrl
    ndelay bus 300
    writel bus 0x5a efuse_master_ctrl
    writel bus 0x100 efuse_ctrl
    send_words 6
    writel bus 0x0 efuse_ctrl
    poll_write 100000

  unfoldable pub efuse_write_disable : Io S (Unit {0})
  efuse_write_disable = do
    writel bus 0x0005 efuse_ctrl
    writel bus 0x0405 efuse_ctrl
    writel bus 0x0005 efuse_ctrl
    writel bus 0 efuse_master_ctrl
