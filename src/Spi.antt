-- ===== src/Spi.antt =====
-- wtmi/spi.c: the controller of the SPI flash, as a device on the bus. Each loop that waits for the
-- controller has fuel.
pub mod Reading
mod Tests
use mox_boot_builder.Prelude.{
  ℕ, zero, suc, ◌+◌, ◌*◌, ◌%◌, ◌^◌, Bool, true, false, List, [], ◌∷◌, length, replicate, some,
  if◌then◌else◌,
}
use mox_boot_builder.Bits.{◌>>>◌}
use mox_boot_builder.Bus.{Bus}
use mox_boot_builder.Bus.Wait.{Wait, ◌>>=◌, ◌>>◌, give, load, put, set_bits, poll_bit}

abbrev pub nb_pinctrl : ℕ
nb_pinctrl = 0xc0013830

abbrev pub nb_tbg_sel : ℕ
nb_tbg_sel = 0xc0013000

abbrev pub nb_div_sel1 : ℕ
nb_div_sel1 = 0xc0013008

abbrev pub nb_clk_sel : ℕ
nb_clk_sel = 0xc0013010

abbrev pub nb_clk_en : ℕ
nb_clk_en = 0xc0013014

abbrev pub spi_ctrl : ℕ
spi_ctrl = 0xc0010600

abbrev pub spi_ctrl_rdy : ℕ
spi_ctrl_rdy = 2

abbrev pub spi_cfg : ℕ
spi_cfg = 0xc0010604

abbrev pub spi_dout : ℕ
spi_dout = 0xc0010608

abbrev pub spi_din : ℕ
spi_din = 0xc001060c

abbrev pub spinor_op_rdid : ℕ
spinor_op_rdid = 0x9f

abbrev pub spinor_op_read_fast : ℕ
spinor_op_read_fast = 0x0b

-- `struct spi`
pub record SpiDevice : Type 0 where
  pub cs : ℕ
  pub cpol : Bool
  pub cpha : Bool

abbrev pub nordev : SpiDevice
nordev = record { cs = 0; cpol = false; cpha = false }

-- The bytes that `spi_nor_read` sends before it reads.
abbrev pub read_op : ℕ → List ℕ
read_op place =
    spinor_op_read_fast ∷ (place >>> 16) % 2 ^ 8 ∷ (place >>> 8) % 2 ^ 8 ∷ place % 2 ^ 8 ∷ 0xff ∷ []

module _ {S : Type 0} (bus : Bus S) where
  abbrev pub spi_init : SpiDevice → Wait S (Unit {0})
  spi_init spi = do
    set_bits bus nb_pinctrl 0 (2 ^ 11)
    set_bits bus nb_clk_en (2 ^ 12) (2 ^ 12)
    set_bits bus nb_clk_sel (2 ^ 7) (2 ^ 7)
    set_bits bus nb_div_sel1 (5 * 2 ^ 27 + 4 * 2 ^ 24) (7 * 2 ^ 27 + 7 * 2 ^ 24)
    set_bits bus nb_tbg_sel 1 (3 * 2 ^ 12)
    set_bits bus nb_clk_en 0 (2 ^ 12)
    set_bits bus spi_ctrl 0 0xf0000
    put bus (2 ^ 9 + (if spi.cpol then 2 ^ 7 else 0) + (if spi.cpha then 2 ^ 6 else 0) + 1) spi_cfg

  abbrev pub spi_cs_activate : SpiDevice → Wait S (Unit {0})
  spi_cs_activate spi = set_bits bus spi_ctrl (2 ^ (16 + spi.cs)) (2 ^ (16 + spi.cs))

  abbrev pub spi_cs_deactivate : SpiDevice → Wait S (Unit {0})
  spi_cs_deactivate spi = set_bits bus spi_ctrl 0 (2 ^ (16 + spi.cs))

  -- `spi_xfer` of one byte: what comes in for the byte that goes out.
  abbrev pub xfer_byte : ℕ → ℕ → Wait S ℕ
  xfer_byte fuel out = do
    poll_bit bus fuel spi_ctrl spi_ctrl_rdy
    put bus out spi_dout
    poll_bit bus fuel spi_ctrl spi_ctrl_rdy
    c ← load bus spi_din
    give (c % 2 ^ 8)

  -- `spi_xfer` with the bytes to send; for a null `dout` they are 0. A null `din` drops what is read.
  unfoldable pub spi_xfer : ℕ → List ℕ → Wait S (List ℕ)
  spi_xfer fuel [] s = some ([], s)
  spi_xfer fuel (b ∷ out) s = (do c ← xfer_byte fuel b; rest ← spi_xfer fuel out; give (c ∷ rest)) s

  -- `spi_flash_cmd_rw` with the bytes of the command and of the data to send; no data is no transfer.
  abbrev pub spi_flash_cmd_rw : ℕ → SpiDevice → List ℕ → List ℕ → Wait S (List ℕ)
  spi_flash_cmd_rw fuel spi cmd out = do
    spi_cs_activate spi
    ignored ← spi_xfer fuel cmd
    din ← spi_xfer fuel out
    spi_cs_deactivate spi
    give din

  unfoldable pub spi_nor_read_id : ℕ → SpiDevice → Wait S (List ℕ)
  spi_nor_read_id fuel spi = spi_flash_cmd_rw fuel spi (spinor_op_rdid ∷ []) (replicate 6 0)

  unfoldable pub spi_nor_read : ℕ → SpiDevice → ℕ → ℕ → Wait S (List ℕ)
  spi_nor_read fuel spi place len = spi_flash_cmd_rw fuel spi (read_op place) (replicate len 0)
