-- ===== src/Deploy/Tests.antt =====
-- deploy.c on devices for tests.
use mox_boot_builder.Prelude.{
  ◌+◌, ◌*◌, ◌^◌, ◌≡◌, arith, some, List, [], ◌∷◌, ◌==◌, ltb, get_or, if◌then◌else◌, replicate,
}
use mox_boot_builder.Bus.{Bus}
use mox_boot_builder.Crypto.Ecdsa.{Random}
use mox_boot_builder.Commands.{board_words}
use mox_boot_builder.Deploy.Fields.{IsWords, board_words-board_word}
use mox_boot_builder.Deploy.{
  BuilderData, Report, ram, serial, board, public_key, serial_word, board_word,
}

-- Rows that are locked and hold 0, and engines that answer 1.
abbrev made : Bus (Unit {0})
made = record {
  read = λ addr s. (
    if addr == 0x40003440 then 2 ^ 31 + 2 ^ 29 + 16 else if ltb addr 0x40003000 then 1 else 0,
    s,
  );
  write = λ v addr s. s;
  pause = λ n s. s;
}

abbrev source : Random (Unit {0})
source = record { paranoid_rand = λ n s. some (replicate n 1, s) }

-- A RIPE Atlas probe.
abbrev probe : BuilderData
probe = record {
  op = 1;
  serial_number_low = 0x600;
  serial_number_high = 5;
  mac_addr_low = 0x58d70a0b;
  mac_addr_high = 0x0cd8;
  board_version = 0x96;
  otp_hash = replicate 8 0;
}

abbrev printed : List Report
printed = ram 0 ∷ serial 0 ∷ board 0 ∷ public_key (0x30001 ∷ replicate 16 1) ∷ []

probe-IsWords : IsWords probe
probe-IsWords = omega arith

board_words-board_word_example :
    let w = board_words (board_word 0 probe) (serial_word probe) (replicate 16 0) in
    (get_or w 1 0 * 2 ^ 32 + get_or w 0 0 ≡ 0x500000600)
    × (get_or w 2 0 ≡ 0x16)
    × (get_or w 3 0 ≡ 512)
    × (get_or w 4 0 * 2 ^ 32 + get_or w 5 0 ≡ 0x0cd858d70a0b)
board_words-board_word_example = board_words-board_word 0 probe (omega arith) probe-IsWords
