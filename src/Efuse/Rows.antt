-- ===== src/Efuse/Rows.antt =====
-- Reading rows (efuse.c): with or without the check bits, and the mask of secure boot.
use mox_boot_builder.Prelude.{
  ℕ, zero, suc, ◌-◌, ◌^◌, Bool, true, false, none, some, bit_and, bit_or, leb, ltb, if◌then◌else◌,
}
use mox_boot_builder.Bits.{◌>>>◌}
use mox_boot_builder.Bus.{Bus, ok, err, Io, ◌>>=◌, ◌>>◌, pure, fail, readl}
use mox_boot_builder.Mbox.Status.{einval, eio, eacces}
use mox_boot_builder.Efuse.{Row, efuse_aux, efuse_rc, ecc_of}
use mox_boot_builder.Efuse.Raw.{raw_read, is_row_masked}

module _ {S : Type 0} (bus : Bus S) where
  -- The row register's value for a row, read by the secure buffer or not.
  abbrev row_word : ℕ → Bool → ℕ
  row_word row sb = if sb then bit_or (efuse_rc row 0) (2 ^ 28) else efuse_rc row 0

  -- A read with check bits: first the row that holds them, then the row itself.
  unfoldable pub read_checked : ℕ → ℕ → ℕ → Bool → Io S Row
  read_checked rwreg ecc_row ecc_pos want = do
    _ ← raw_read bus (bit_or (2 ^ 31) (efuse_rc ecc_row 0)) 0 want
    row ← raw_read bus rwreg ecc_pos want
    aux ← readl bus efuse_aux
    if leb 2 (bit_and (aux >>> 16) 3) then fail Row eio else pure row

  -- `_efuse_read_row`; a negative row is a word above 43 too.
  unfoldable pub read_row_any : ℕ → Bool → Bool → Bool → Io S Row
  read_row_any row want check_ecc sb =
      if ltb 43 row
      then fail Row einval
      else if check_ecc
      then elim (ecc_of row).row [
        | none ↦ raw_read bus (row_word row sb) 0 want
        | some r ↦ read_checked (row_word row sb) r (ecc_of row).pos want
      ]
      else raw_read bus (row_word row sb) 0 want

  -- The mask is asked after the read, whatever the read returned.
  abbrev if_not_masked : ℕ → Io S Row → Io S Row
  if_not_masked row read s =
      let (res, s1) = read s in
      let (masked, s2) = is_row_masked bus row s1 in (if masked then err eacces else res, s2)

  unfoldable pub efuse_read_row : ℕ → Bool → Io S Row
  efuse_read_row row want = if_not_masked row (read_row_any row want true false)

  unfoldable pub efuse_read_row_no_ecc : ℕ → Bool → Io S Row
  efuse_read_row_no_ecc row want = if_not_masked row (read_row_any row want false false)

  -- `for (i = 37; i >= 30; --i)`, with `n` rounds left.
  unfoldable pub read_key_rows : ℕ → ℕ → Io S (Unit {0})
  read_key_rows zero i s = (ok tt, s)
  read_key_rows (suc n) i s = (do _ ← read_row_any i false true true; read_key_rows n (i - 1)) s

  -- `efuse_read_secure_buffer`; the argument and the result are the static flag `sbfill`.
  unfoldable pub efuse_read_secure_buffer : Bool → Io S Bool
  efuse_read_secure_buffer sbfill =
      if sbfill
      then pure true
      else (do _ ← read_row_any 40 false true true; read_key_rows 8 37; pure true)
