-- ===== src/Crc/Tests.antt =====
-- crc32.c at concrete inputs.
use mox_boot_builder.Prelude.{◌≡◌, arith, get_or}
use mox_boot_builder.Crc.Table.{crc_table, divide_bits, crc_table_lem}

crc_table_lem_example : get_or crc_table 255 0 ≡ divide_bits 8 255
crc_table_lem_example = crc_table_lem 255 (omega arith)
