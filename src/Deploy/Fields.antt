-- ===== src/Deploy/Fields.antt =====
-- What deploy.c writes to rows 42 and 43 is what the command for the board's information reads.
use mox_boot_builder.Prelude.{
  ℕ, ◌+◌, ◌*◌, ◌%◌, ◌^◌, ◌<◌, ◌≡◌, ap, ◌∙◌, arith, bit_and, bit_or, get_or, replicate,
}
use mox_boot_builder.Bits.{u64, ◌<<◌}
use mox_boot_builder.Bits.Fields.{or_fields, and_mask}
use mox_boot_builder.Commands.{board_words}
use mox_boot_builder.Commands.Majority.{board_words-fields}
use mox_boot_builder.Deploy.{BuilderData, serial_word, board_word}

-- The fields are 32-bit words.
pub record IsWords (mbd : BuilderData) : Type 0 where
  pub serial_low : mbd.serial_number_low < 2 ^ 32
  pub serial_high : mbd.serial_number_high < 2 ^ 32
  pub mac_low : mbd.mac_addr_low < 2 ^ 32
  pub mac_high : mbd.mac_addr_high < 2 ^ 32
  pub version : mbd.board_version < 2 ^ 32

-- A field is put below what is there.
put_field : (k q r : ℕ) → r < 2 ^ k → q * 2 ^ k < 2 ^ 64 → bit_or (u64 (q << k)) r ≡ q * 2 ^ k + r
put_field k q r h small =
    let same : u64 (q << k) ≡ q * 2 ^ k = omega arith in
    ap (λ t. bit_or t r) same ∙ or_fields k q r h

serial_value :
    (mbd : BuilderData)
    → IsWords mbd
    → serial_word mbd ≡ mbd.serial_number_high * 2 ^ 32 + mbd.serial_number_low
unfolding serial_word
serial_value mbd v =
    put_field 32 mbd.serial_number_high mbd.serial_number_low v.serial_low
      (omega (arith, v.serial_high))

abbrev pub board_value : ℕ → BuilderData → ℕ
board_value code mbd =
    ((code * 2 ^ 8 + mbd.board_version % 2 ^ 8) * 2 ^ 16 + mbd.mac_addr_high % 2 ^ 16) * 2 ^ 32
    + mbd.mac_addr_low

pub board_value_lem :
    (code : ℕ) (mbd : BuilderData)
    → code < 4
    → IsWords mbd
    → board_word code mbd ≡ board_value code mbd
unfolding board_word
board_value_lem code mbd h v =
    let version = mbd.board_version % 2 ^ 8 in
    let high = mbd.mac_addr_high % 2 ^ 16 in
    let low = mbd.mac_addr_low in
    let v1 = code * 2 ^ 8 + version in
    let e1 : bit_or (u64 (code << 8)) (bit_and mbd.board_version 0xff) ≡ v1 =
      ap (bit_or (u64 (code << 8))) (and_mask 8 mbd.board_version)
      ∙ put_field 8 code version (omega arith) (omega arith) in
    let e2 : bit_or (u64 (v1 << 16)) (bit_and mbd.mac_addr_high 0xffff) ≡ v1 * 2 ^ 16 + high =
      ap (bit_or (u64 (v1 << 16))) (and_mask 16 mbd.mac_addr_high)
      ∙ put_field 16 v1 high (omega arith) (omega arith) in
    ap (λ t. bit_or (u64 (bit_or (u64 (t << 16)) (bit_and mbd.mac_addr_high 0xffff) << 32)) low) e1
    ∙ ap (λ t. bit_or (u64 (t << 32)) low) e2
    ∙ put_field 32 (v1 * 2 ^ 16 + high) low v.mac_low (omega arith)

-- The board's information, on zeroed output words and with the rows that deploy.c writes for a
-- size of the RAM with a code below 4: the serial number, the six bits of the version, the size of
-- the RAM and the MAC address that it was given.
pub board_words-board_word :
    (code : ℕ) (mbd : BuilderData)
    → code < 4
    → IsWords mbd
    → let w = board_words (board_word code mbd) (serial_word mbd) (replicate 16 0) in
      (get_or w 1 0 * 2 ^ 32 + get_or w 0 0
        ≡ mbd.serial_number_high * 2 ^ 32 + mbd.serial_number_low)
      × (get_or w 2 0 ≡ mbd.board_version % 64)
      × (get_or w 3 0 ≡ 512 * 2 ^ code)
      × (get_or w 4 0 * 2 ^ 32 + get_or w 5 0
          ≡ mbd.mac_addr_high % 2 ^ 16 * 2 ^ 32 + mbd.mac_addr_low)
board_words-board_word code mbd h v =
    let row42 = board_word code mbd in
    let e42 = board_value_lem code mbd h v in
    let row43 = serial_word mbd in
    let e43 = serial_value mbd v in
    let (mac, next, sn, version, ram) =
      board_words-fields row42 row43 (omega (arith, e42, v.mac_low))
        (omega (arith, e43, v.serial_low, v.serial_high)) in
    (
      sn ∙ e43,
      version ∙ omega (arith, e42, v.mac_low),
      ram ∙ ap (λ (t : ℕ). 512 * 2 ^ t) (omega (arith, e42, v.mac_low)),
      mac ∙ omega (arith, e42, v.mac_low),
    )
