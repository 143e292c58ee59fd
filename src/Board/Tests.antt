-- ===== src/Board/Tests.antt =====
-- board.c on a device for tests.
use mox_boot_builder.Prelude.{
  ◌+◌, ◌^◌, ◌≡◌, refl, arith, true, false, none, some, replicate, ◌==◌, if◌then◌else◌,
}
use mox_boot_builder.Bus.{Bus, Returns}
use mox_boot_builder.Efuse.{Row, ecc_of, ecc_table, efuse_rc}
use mox_boot_builder.Efuse.Raw.{
  raw_read, poll_row, is_row_masked, is_secure_boot, mask_bit, send_words, send_bits,
}
use mox_boot_builder.Efuse.Rows.{read_row_any, read_checked, efuse_read_row}
use mox_boot_builder.Deploy.{BuilderData, board_word, is_ripe}
use mox_boot_builder.Board.{ripe_atlas, get_board}
use mox_boot_builder.Board.Fused.{get_board-board_word}

-- A RIPE Atlas probe with the address d8:58:d7:0a:0b:0c.
abbrev probe : BuilderData
probe = record {
  op = 1;
  serial_number_low = 0x600;
  serial_number_high = 5;
  mac_addr_low = 0xd70a0b0c;
  mac_addr_high = 0xd858;
  board_version = 0x96;
  otp_hash = replicate 8 0;
}

-- Rows that are locked and hold what is written for it.
abbrev probe_fuses : Bus (Unit {0})
probe_fuses = record {
  read = λ addr s. (
    if addr == 0x40003440
        then 2 ^ 31 + 2 ^ 29 + 16
        else if addr == 0x40003438
        then 0xd70a0b0c
        else if addr == 0x4000343c
        then 0x96d858
        else 0,
    s,
  );
  write = λ v addr s. s;
  pause = λ n s. s;
}

abbrev probe_row : Row
probe_row = record { val = 0x96d858d70a0b0c; lock = true }

row_read : Returns (efuse_read_row probe_fuses 42 true tt) probe_row tt
unfolding efuse_read_row raw_read read_row_any read_checked poll_row is_row_masked is_secure_boot
    mask_bit send_words send_bits ecc_of ecc_table efuse_rc
row_read = refl

probe_word : 0x96d858d70a0b0c ≡ board_word 0 probe
unfolding board_word
probe_word = refl

get_board-board_word_example :
    (get_board probe_fuses 1 none false tt ≡ some ((ripe_atlas, some ripe_atlas, false), tt))
    × ((u : Unit {0})
        → get_board probe_fuses 1 (some ripe_atlas) false u
          ≡ some ((ripe_atlas, some ripe_atlas, false), u))
unfolding is_ripe
get_board-board_word_example =
    get_board-board_word probe_fuses 1 0 probe false tt tt probe_row (omega arith) (omega arith)
      refl refl probe_word row_read
