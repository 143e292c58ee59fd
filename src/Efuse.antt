-- ===== src/Efuse.antt =====
-- wtmi/efuse.c: the one-time programmable fuses, 44 rows of 64 bits, each with a lock bit.
pub mod Secded
pub mod Raw
pub mod Rows
pub mod Write
pub mod Guards
pub mod Verified
pub mod EccLock
mod Tests
use mox_boot_builder.Prelude.{
  ℕ, ◌+◌, ◌*◌, Bool, Option, none, some, List, [], ◌∷◌, bit_and, bit_or, get_or,
}
use mox_boot_builder.Bits.{◌<<◌}

abbrev pub efuse_ctrl : ℕ
efuse_ctrl = 0x40003430

abbrev pub efuse_rw : ℕ
efuse_rw = 0x40003434

abbrev pub efuse_d0 : ℕ
efuse_d0 = 0x40003438

abbrev pub efuse_d1 : ℕ
efuse_d1 = 0x4000343c

abbrev pub efuse_aux : ℕ
efuse_aux = 0x40003440

abbrev pub efuse_row_mask0 : ℕ
efuse_row_mask0 = 0x40003450

abbrev pub efuse_row_mask1 : ℕ
efuse_row_mask1 = 0x40003454

abbrev pub efuse_master_ctrl : ℕ
efuse_master_ctrl = 0x400037f4

abbrev pub sec_status : ℕ
sec_status = 0x40000104

-- `EFUSE_RC`
unfoldable pub efuse_rc : ℕ → ℕ → ℕ
efuse_rc r c = bit_or (bit_and r 0x3f << 7) (bit_and c 0x7f)

-- An entry of the table `ecc`: the row and the byte, from 1, that hold a row's check bits.
-- `none` is the row -1, for a row without check bits.
pub record EccPlace : Type 0 where
  pub row : Option ℕ
  pub pos : ℕ

abbrev pub no_ecc : EccPlace
no_ecc = record { row = none; pos = 0 }

abbrev pub at_row : ℕ → ℕ → EccPlace
at_row r p = record { row = some r; pos = p }

unfoldable pub ecc_table : List EccPlace
ecc_table =
    at_row 7 1
    ∷ at_row 7 2
    ∷ at_row 7 3
    ∷ at_row 7 4
    ∷ at_row 7 5
    ∷ at_row 7 6
    ∷ at_row 7 7
    ∷ no_ecc
    ∷ at_row 24 1
    ∷ at_row 24 2
    ∷ at_row 24 3
    ∷ at_row 24 4
    ∷ at_row 24 5
    ∷ at_row 24 6
    ∷ at_row 24 7
    ∷ at_row 24 8
    ∷ at_row 25 1
    ∷ at_row 25 2
    ∷ at_row 25 3
    ∷ at_row 25 4
    ∷ at_row 25 5
    ∷ at_row 25 6
    ∷ at_row 25 7
    ∷ at_row 25 8
    ∷ no_ecc
    ∷ no_ecc
    ∷ at_row 38 1
    ∷ at_row 38 2
    ∷ at_row 38 3
    ∷ at_row 38 4
    ∷ at_row 38 5
    ∷ at_row 38 6
    ∷ at_row 38 7
    ∷ at_row 38 8
    ∷ at_row 39 1
    ∷ at_row 39 2
    ∷ at_row 39 3
    ∷ at_row 39 4
    ∷ no_ecc
    ∷ no_ecc
    ∷ at_row 39 5
    ∷ at_row 39 6
    ∷ at_row 39 7
    ∷ at_row 39 8
    ∷ []

-- `ecc[row]`, for the rows below 44 that reach it
unfoldable pub ecc_of : ℕ → EccPlace
unfolding ecc_table
ecc_of row = get_or ecc_table row no_ecc

-- A row as it is read: its value and whether it is locked.
pub record Row : Type 0 where
  pub val : ℕ
  pub lock : Bool
