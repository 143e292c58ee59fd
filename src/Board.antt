-- ===== src/Board.antt =====
-- wtmi/board.c: which board the firmware runs on, from the fuses or from the chips that answer.
pub mod Fused
mod Tests
use mox_boot_builder.Prelude.{
  ℕ, zero, suc, ◌^◌, Bool, true, false, not, ◌&&◌, ◌||◌, Option, none, some, List, [], ◌∷◌, bit_and,
  ◌==◌, if◌then◌else◌, get_or,
}
use mox_boot_builder.Bits.{◌>>>◌}
use mox_boot_builder.Bus.{Bus, Result, ok, err}
use mox_boot_builder.Bus.Wait.{Wait, ◌>>=◌, ◌>>◌, give, run}
use mox_boot_builder.Mdio.{mdio_begin, mdio_end, mdio_read, mdio_write}
use mox_boot_builder.Spi.{nordev, spi_init, spi_nor_read_id}
use mox_boot_builder.Efuse.{Row}
use mox_boot_builder.Efuse.Rows.{efuse_read_row}

-- `enum board`
pub data BoardId : Type 0 where
  unknown turris_mox ripe_atlas espressobin espressobin_ultra armada3720_db udpu : BoardId

-- Comparing what `mdio_read` returned, where none is -1.
abbrev pub is_value : Option ℕ → ℕ → Bool
is_value none v = false
is_value (some w) v = w == v

abbrev pub same_reads : Option ℕ → Option ℕ → Bool
same_reads none none = true
same_reads (some v) (some w) = v == w
same_reads none (some w) = false
same_reads (some v) none = false

-- `id[0] == 0xef || id[0] == 0xc2 || id[0] == 0x01`
abbrev pub is_mox_flash : ℕ → Bool
is_mox_flash b = b == 0xef || b == 0xc2 || b == 0x01

-- `((val >> 24) & 0xffffff) == 0xd858d7`
unfoldable pub cznic_mac : ℕ → Bool
cznic_mac word = bit_and (word >>> 24) 0xffffff == 0xd858d7

-- The board of a locked row 42 with an address of CZ.NIC.
unfoldable pub fused_board : ℕ → BoardId
fused_board word = if bit_and (word >>> 54) 3 == 2 then ripe_atlas else turris_mox

module _ {S : Type 0} (bus : Bus S) (fuel : ℕ) where
  -- The part of `_get_board_fallback` that asks the switch and the flash.
  unfoldable pub ask_flash : Wait S BoardId
  ask_flash = do
    mdio_write bus fuel 1 22 18
    id151x ← mdio_read bus fuel 1 30
    mdio_write bus fuel 1 22 0
    if is_value id151x 0x0006 then give armada3720_db else (do
      spi_init bus nordev
      id ← spi_nor_read_id bus fuel nordev
      give (if is_mox_flash (get_or id 0 0) then turris_mox else ripe_atlas))

  abbrev pub choose : (reg02 reg03 reg12 reg13 reg32 reg33 : Option ℕ) → Wait S BoardId
  choose reg02 reg03 reg12 reg13 reg32 reg33 =
      if is_value reg03 0xffff && is_value reg13 0xffff
      then give udpu
      else if is_value reg02 0x0141 && is_value reg13 0xffff
      then give armada3720_db
      else if is_value reg03 0xffff && is_value reg12 0x0141
      then (if not (is_value reg33 0xffff) && same_reads reg32 reg33
          then give espressobin_ultra
          else ask_flash)
      else if is_value reg03 0xffff && not (is_value reg13 0xffff) && same_reads reg13 reg12
      then give espressobin
      else give unknown

  unfoldable pub get_board_fallback : Wait S BoardId
  get_board_fallback = do
    reg02 ← mdio_read bus fuel 0 2
    reg03 ← mdio_read bus fuel 0 3
    reg12 ← mdio_read bus fuel 1 2
    reg13 ← mdio_read bus fuel 1 3
    reg32 ← mdio_read bus fuel 3 2
    reg33 ← mdio_read bus fuel 3 3
    choose reg02 reg03 reg12 reg13 reg32 reg33

  -- The end of `_get_board`; `flag` is the flag of mdio.c.
  abbrev pub detect : Bool → Wait S (BoardId × Bool)
  detect flag = do
    begun ← mdio_begin bus flag
    b ← get_board_fallback
    ended ← mdio_end bus begun
    give (b, ended)

  abbrev pub from_row : Bool → Result Row → Wait S (BoardId × Bool)
  from_row flag (ok r) =
      if r.lock && cznic_mac r.val then give (fused_board r.val, flag) else detect flag
  from_row flag (err e) = detect flag

  -- `_get_board`
  unfoldable pub find_board : Bool → Wait S (BoardId × Bool)
  find_board flag = run (efuse_read_row bus 42 true) >>= from_row flag

  -- `get_board`; the first argument and the second result are its static variables.
  unfoldable pub get_board : Option BoardId → Bool → Wait S (BoardId × Option BoardId × Bool)
  get_board (some b) flag = give (b, some b, flag)
  get_board none flag = find_board flag >>= λ x. give (x.0, some x.0, x.1)
