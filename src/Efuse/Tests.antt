-- ===== src/Efuse/Tests.antt =====
-- efuse.c on devices for tests.
use mox_boot_builder.Prelude.{ℕ, ◌%◌, ◌^◌, ◌≡◌, refl, arith, true, false, some, List}
use mox_boot_builder.Bus.{Returns}
use mox_boot_builder.Bus.Sample.{quiet, fuses}
use mox_boot_builder.Efuse.{ecc_of, ecc_table, efuse_rc}
use mox_boot_builder.Efuse.Secded.{secded_ecc, weight, secded_ecc-separates}
use mox_boot_builder.Efuse.Raw.{
  raw_read, poll_row, is_row_masked, is_secure_boot, mask_bit, efuse_write_enable,
  efuse_write_disable, send_words, send_bits, poll_write,
}
use mox_boot_builder.Efuse.Rows.{read_row_any, read_checked}
use mox_boot_builder.Efuse.Write.{
  burn_bits, efuse_raw_write, efuse_raw_lock, program, lock_row, write_value, write_lock,
  efuse_write_row_no_ecc, scan_sharers, write_ecc_lock_at, efuse_write_row_with_ecc_lock,
  placed_ecc,
}
use mox_boot_builder.Efuse.Guards.{pulses, total, IsAscending, burn_bits-exact}
use mox_boot_builder.Efuse.Verified.{HasWritten, efuse_write_row_no_ecc-HasWritten}
use mox_boot_builder.Efuse.EccLock.{HasWrittenEcc, write_with_ecc_lock-HasWrittenEcc}

secded_ecc-separates_example :
    (weight 8 (secded_ecc (2 ^ 3)) % 2 ≡ 1)
    × (secded_ecc (2 ^ 3) ≡ secded_ecc (2 ^ 4) → ◌≡◌ {A = ℕ} 3 4)
secded_ecc-separates_example = secded_ecc-separates 3 4 (omega arith) (omega arith)

burn_bits-exact_example :
    (js : List ℕ) × Returns (burn_bits quiet 64 0 3 5 tt) tt (pulses quiet 3 js tt)
    × IsAscending 0 js
    × (total js ≡ 5)
burn_bits-exact_example = burn_bits-exact quiet 3 5 tt (omega arith)

written : Returns (efuse_write_row_no_ecc (fuses 5) 5 5 false false) tt true
unfolding efuse_write_row_no_ecc write_value write_lock program efuse_raw_write raw_read
    read_row_any poll_row is_row_masked is_secure_boot mask_bit efuse_write_enable
    efuse_write_disable send_words send_bits poll_write burn_bits efuse_rc
written = refl

efuse_write_row_no_ecc-HasWritten_example : HasWritten (fuses 5) 5 5 false false true
efuse_write_row_no_ecc-HasWritten_example =
    efuse_write_row_no_ecc-HasWritten (fuses 5) 5 5 false false (omega arith) written

place_of_0 : (ecc_of 0).row ≡ some 7
unfolding ecc_of ecc_table
place_of_0 = refl

nothing_written : Returns (efuse_write_row_with_ecc_lock (fuses 0) 0 0 false) tt true
unfolding efuse_write_row_with_ecc_lock write_ecc_lock_at efuse_write_row_no_ecc write_value
    write_lock lock_row efuse_raw_lock raw_read read_row_any read_checked poll_row is_row_masked
    is_secure_boot mask_bit efuse_write_enable efuse_write_disable send_words send_bits poll_write
    scan_sharers placed_ecc secded_ecc ecc_of ecc_table efuse_rc
nothing_written = refl

write_with_ecc_lock-HasWrittenEcc_example : HasWrittenEcc (fuses 0) 0 7 (ecc_of 0).pos 0 false true
write_with_ecc_lock-HasWrittenEcc_example =
    write_with_ecc_lock-HasWrittenEcc (fuses 0) 0 7 0 false place_of_0 nothing_written
