-- ===== src/Crc.antt =====
-- wtmi/crc32.c: the reflected CRC-32, by a table and four bytes at a time.
pub mod Table
mod Tests
use mox_boot_builder.Prelude.{
  ℕ, zero, suc, ◌+◌, ◌-◌, ◌*◌, ◌/◌, ◌%◌, ◌^◌, Bool, true, false, Option, none, some, List, [], ◌∷◌,
  bit_and, bit_xor, ◌==◌, ◌!=◌, leb, if◌then◌else◌, get_or,
}
use mox_boot_builder.Bits.{◌>>>◌, sub32}
use Table.{crc_table}

-- `crc_table[crc & 0xff] ^ (crc >> 8)`
unfoldable pub table_step : ℕ → ℕ
table_step crc = bit_xor (get_or crc_table (bit_and crc 0xff) 0) (crc >>> 8)

-- `crc_table[(crc ^ byte) & 0xff] ^ (crc >> 8)`
unfoldable pub byte_step : ℕ → ℕ → ℕ
byte_step crc byte = bit_xor (get_or crc_table (bit_and (bit_xor crc byte) 0xff) 0) (crc >>> 8)

-- A 32-bit load on this little-endian processor.
abbrev pub load_word : ℕ → ℕ → ℕ → ℕ → ℕ
load_word b0 b1 b2 b3 = b0 + 2 ^ 8 * (b1 + 2 ^ 8 * (b2 + 2 ^ 8 * b3))

unfoldable pub word_step : ℕ → ℕ → ℕ
word_step crc word = table_step (table_step (table_step (table_step (bit_xor crc word))))

-- The last loop: `none` is a read behind the buffer.
unfoldable pub crc_tail : ℕ → ℕ → List ℕ → Option ℕ
crc_tail zero crc buf = some crc
crc_tail (suc n) crc [] = none
crc_tail (suc n) crc (b ∷ buf) = crc_tail n (byte_step crc b) buf

-- The loop over words, with `len` bytes left.
unfoldable pub crc_words : ℕ → ℕ → List ℕ → Option ℕ
crc_words len crc (b0 ∷ b1 ∷ b2 ∷ b3 ∷ buf) = elim (leb 4 len) [
  | true ↦ crc_words (len - 4) (word_step crc (load_word b0 b1 b2 b3)) buf
  | false ↦ crc_tail len crc (b0 ∷ b1 ∷ b2 ∷ b3 ∷ buf)
]
crc_words len crc buf = if leb 4 len then none else crc_tail len crc buf

-- The first loop, from an address that is `addr` modulo 4. When the length runs out before the
-- address is aligned, `len--` has already wrapped around.
unfoldable pub crc_from : ℕ → ℕ → ℕ → List ℕ → Option ℕ
crc_from addr len crc [] =
    if bit_and addr 3 == 0
    then crc_words len crc []
    else if len == 0
    then crc_words (sub32 len 1) crc []
    else none
crc_from addr len crc (b ∷ buf) = elim (bit_and addr 3 == 0) [
  | true ↦ crc_words len crc (b ∷ buf)
  | false ↦ elim (len == 0) [
    | true ↦ crc_words (sub32 len 1) crc (b ∷ buf)
    | false ↦ crc_from (addr + 1) (len - 1) (byte_step crc b) buf
  ]
]

-- `crc32`; the buffer is what can be read from its address on.
unfoldable pub crc32 : ℕ → ℕ → ℕ → List ℕ → Option ℕ
crc32 addr crc len buf = crc_from addr len crc buf
