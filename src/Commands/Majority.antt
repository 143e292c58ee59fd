-- ===== src/Commands/Majority.antt =====
-- The majority vote of three fuses in `cmd_otp_read_1b`, and the fields of `cmd_board_info`.
use mox_boot_builder.Prelude.{
  ℕ, ◌+◌, ◌*◌, ◌/◌, ◌%◌, ◌^◌, ◌<◌, ◌≡◌, arith, ltb, if◌then◌else◌, get_or, replicate, ap,
}
use mox_boot_builder.Bits.Fields.{and_mask}
use mox_boot_builder.Commands.{vote, board_words}

-- The vote is the majority of the three bits, so one fuse that reads wrongly does not change it.
pub vote-majority :
    (a b c : ℕ)
    → a < 2
    → b < 2
    → c < 2
    → vote (a + 2 * b + 4 * c) ≡ (if ltb 1 (a + b + c) then 1 else 0)
unfolding vote
vote-majority a b c ha hb hc = ground arith

-- On zeroed output words, the first MAC address is the low 48 bits of row 42, the second is the
-- next address modulo 2 ^ 48, the serial number is row 43, and the board version is bits 48 to
-- 53 of row 42, the RAM size 512 MiB doubled as often as bits 56 and 57 say.
pub board_words-fields :
    (row42 row43 : ℕ)
    → row42 < 2 ^ 64
    → row43 < 2 ^ 64
    → let w = board_words row42 row43 (replicate 16 0) in
      (get_or w 4 0 * 2 ^ 32 + get_or w 5 0 ≡ row42 % 2 ^ 48)
      × (get_or w 6 0 * 2 ^ 32 + get_or w 7 0 ≡ (row42 % 2 ^ 48 + 1) % 2 ^ 48)
      × (get_or w 1 0 * 2 ^ 32 + get_or w 0 0 ≡ row43)
      × (get_or w 2 0 ≡ row42 / 2 ^ 48 % 64)
      × (get_or w 3 0 ≡ 512 * 2 ^ (row42 / 2 ^ 56 % 4))
unfolding board_words
board_words-fields row42 row43 h42 h43 =
    let next = (row42 + 1) % 2 ^ 64 in
    (
      omega (arith, and_mask 16 (row42 / 2 ^ 32), and_mask 32 row42),
      omega (arith, and_mask 16 (next / 2 ^ 32), and_mask 32 next),
      omega (arith, and_mask 32 row43),
      omega (arith, and_mask 6 (row42 / 2 ^ 48)),
      ap (λ (t : ℕ). 512 * 2 ^ t) (and_mask 2 (row42 / 2 ^ 56)),
    )
