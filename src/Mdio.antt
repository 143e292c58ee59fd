-- ===== src/Mdio.antt =====
-- wtmi/mdio.c: the management bus of the network chips. Loops that wait have fuel.
use mox_boot_builder.Prelude.{
  ℕ, zero, suc, ◌^◌, Bool, true, false, Option, none, some, bit_and, bit_or, ◌==◌, if◌then◌else◌,
}
use mox_boot_builder.Bits.{◌<<◌}
use mox_boot_builder.Bus.{Bus}
use mox_boot_builder.Bus.Wait.{Wait, ◌>>=◌, ◌>>◌, give, load, put, set_bits}

abbrev pub smi : ℕ
smi = 0xc0032004

abbrev pub smi_busy : ℕ
smi_busy = 2 ^ 28

abbrev pub smi_read_valid : ℕ
smi_read_valid = 2 ^ 27

abbrev pub smi_read : ℕ
smi_read = 2 ^ 26

abbrev pub smi_dev : ℕ → ℕ
smi_dev x = bit_and x 0x1f << 16

abbrev pub smi_reg : ℕ → ℕ
smi_reg x = bit_and x 0x1f << 21

-- `SB_PINCTRL` of io.h
abbrev pub sb_pinctrl : ℕ
sb_pinctrl = 0xc0018830

module _ {S : Type 0} (bus : Bus S) where
  -- `while (readl(SMI) & SMI_BUSY) ndelay(100);`
  unfoldable pub mdio_wait : ℕ → Wait S (Unit {0})
  mdio_wait zero s = none
  mdio_wait (suc n) s =
      let (v, s1) = bus.read smi s in
      let again = mdio_wait n (bus.pause 100 s1) in
      if bit_and v smi_busy == 0 then some (tt, s1) else again

  -- `mdio_begin`: the result is the flag `mdio_pins_disable`, whose value before is given.
  unfoldable pub mdio_begin : Bool → Wait S Bool
  mdio_begin flag = do
    v ← load bus sb_pinctrl
    if bit_and v (2 ^ 4) == 0 then give flag else (set_bits bus sb_pinctrl 0 (2 ^ 4) >> give true)

  unfoldable pub mdio_end : Bool → Wait S Bool
  mdio_end flag =
      if flag then (set_bits bus sb_pinctrl (2 ^ 4) (2 ^ 4) >> give false) else give false

  unfoldable pub mdio_write : ℕ → ℕ → ℕ → ℕ → Wait S (Unit {0})
  mdio_write fuel dev reg v = do
    mdio_wait fuel
    put bus (bit_or (bit_or (smi_dev dev) (smi_reg reg)) v) smi
    mdio_wait fuel

  -- `mdio_read`: none is -1.
  unfoldable pub mdio_read : ℕ → ℕ → ℕ → Wait S (Option ℕ)
  mdio_read fuel dev reg = do
    mdio_wait fuel
    put bus (bit_or (bit_or (smi_dev dev) (smi_reg reg)) smi_read) smi
    mdio_wait fuel
    v ← load bus smi
    give (if bit_and v smi_read_valid == 0 then none else some (bit_and v 0xffff))
