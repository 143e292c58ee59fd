-- ===== src/Hash.antt =====
-- wtmi/crypto_hash.c, crypto_hash.h and crypto_dma.h: the hash engine, as a device on the bus. The
-- message is given by its address, as to the engine; a loop that waits for the engine has fuel.
pub mod Digest
mod Tests
use mox_boot_builder.Prelude.{
  ℕ, zero, suc, ◌+◌, ◌*◌, ◌/◌, ◌%◌, ◌^◌, Bool, true, false, Option, none, some, List, [], ◌∷◌,
  bit_and, ltb, ◌==◌, if◌then◌else◌,
}
use mox_boot_builder.Bus.{Bus}
use mox_boot_builder.Bus.Wait.{Wait, ◌>>=◌, ◌>>◌, give, load, put, sleep, set_bits, load_words}
use mox_boot_builder.Strings.{is_same, strcmp}

abbrev pub hash_conf : ℕ
hash_conf = 0x40001800

abbrev pub hash_ctrl : ℕ
hash_ctrl = 0x40001804

abbrev pub hash_cmd : ℕ
hash_cmd = 0x40001808

abbrev pub hash_status : ℕ
hash_status = 0x4000180c

abbrev pub hash_msg_seg_sz : ℕ
hash_msg_seg_sz = 0x40001810

abbrev pub hash_msg_sz_l : ℕ
hash_msg_sz_l = 0x40001818

abbrev pub hash_msg_sz_h : ℕ
hash_msg_sz_h = 0x4000181c

-- `HASH_DIGEST(i)` and `HASH_DIGEST_H(i)`
abbrev pub hash_digest : ℕ → ℕ
hash_digest i = 0x40001820 + 4 * i

abbrev pub hash_digest_h : ℕ → ℕ
hash_digest_h i = 0x40001840 + 4 * i

abbrev pub dma_in_ctrl : ℕ
dma_in_ctrl = 0x40000800

abbrev pub dma_in_src : ℕ
dma_in_src = 0x40000808

abbrev pub dma_in_count : ℕ
dma_in_count = 0x4000080c

abbrev pub dma_in_int : ℕ
dma_in_int = 0x40000814

-- `HASH_MD5` and so on; `HASH_NA` is no algorithm.
pub data HashId : Type 0 where
  na md5 sha1 sha224 sha256 sha384 sha512 : HashId

unfoldable pub hash_id : List ℕ → HashId
hash_id name =
    if is_same (strcmp name (b'm' ∷ b'd' ∷ b'5' ∷ []))
    then md5
    else if is_same (strcmp name (b's' ∷ b'h' ∷ b'a' ∷ b'1' ∷ []))
    then sha1
    else if is_same (strcmp name (b's' ∷ b'h' ∷ b'a' ∷ b'2' ∷ b'2' ∷ b'4' ∷ []))
    then sha224
    else if is_same (strcmp name (b's' ∷ b'h' ∷ b'a' ∷ b'2' ∷ b'5' ∷ b'6' ∷ []))
    then sha256
    else if is_same (strcmp name (b's' ∷ b'h' ∷ b'a' ∷ b'3' ∷ b'8' ∷ b'4' ∷ []))
    then sha384
    else if is_same (strcmp name (b's' ∷ b'h' ∷ b'a' ∷ b'5' ∷ b'1' ∷ b'2' ∷ []))
    then sha512
    else na

module _ {S : Type 0} (bus : Bus S) where
  abbrev pub dma_input_enable : ℕ → ℕ → Wait S (Unit {0})
  dma_input_enable data_addr size = do
    set_bits bus dma_in_int 1 1
    put bus data_addr dma_in_src
    put bus ((size + 3) % 2 ^ 32 / 4) dma_in_count
    set_bits bus dma_in_ctrl 1 1

  abbrev pub dma_input_disable : Wait S (Unit {0})
  dma_input_disable = set_bits bus dma_in_ctrl 0 1

  -- `while (readl(HASH_STATUS) != HASH_STATUS_DONE) ndelay(100);`, with `n` rounds left.
  unfoldable pub hash_wait : ℕ → Wait S (Unit {0})
  hash_wait zero s = none
  hash_wait (suc n) s =
      let (v, s1) = bus.read hash_status s in
      let again = hash_wait n (bus.pause 100 s1) in if v == 1 then some (tt, s1) else again

  abbrev pub hash_init : ℕ → ℕ → ℕ → Wait S (Unit {0})
  hash_init fuel alg size = do
    put bus 0x205 0x40000c00
    set_bits bus 0x40001c00 0 0x30
    put bus 8 hash_ctrl
    put bus 4 hash_ctrl
    put bus (bit_and alg 7) hash_conf
    put bus size hash_msg_sz_l
    put bus 0 hash_msg_sz_h
    set_bits bus hash_ctrl 1 3
    put bus 1 hash_cmd
    hash_wait fuel

  abbrev pub hash_mode : Bool → Wait S (Unit {0})
  hash_mode true = do set_bits bus hash_ctrl 4 4; set_bits bus hash_ctrl 3 3
  hash_mode false = do set_bits bus hash_ctrl 0 4; set_bits bus hash_ctrl 2 3

  abbrev pub hash_update : ℕ → ℕ → ℕ → Bool → Wait S (Unit {0})
  hash_update fuel data_addr size final = do
    dma_input_enable data_addr size
    put bus size hash_msg_seg_sz
    hash_mode final
    put bus 1 hash_cmd
    hash_wait fuel
    dma_input_disable

  -- The rounds of the loop that reads two halves, from `j` on.
  unfoldable pub digest_pairs : ℕ → ℕ → Wait S (List ℕ)
  digest_pairs zero j s = some ([], s)
  digest_pairs (suc n) j s =
      (do
        hi ← load bus (hash_digest_h j)
        lo ← load bus (hash_digest j)
        rest ← digest_pairs n (suc j)
        give (hi ∷ lo ∷ rest))
        s

  -- The words of a digest of `d`; `d` is even where it is more than 8.
  unfoldable pub hash_final : ℕ → Wait S (List ℕ)
  hash_final d s = if ltb 8 d then digest_pairs (d / 2) 0 s else load_words bus hash_digest 0 d s

  -- `hw_md5` to `hw_sha512`, which differ in the algorithm and the number of words.
  abbrev pub hw_alg : ℕ → ℕ → ℕ → ℕ → ℕ → Wait S (Option (List ℕ))
  hw_alg fuel alg d msg size = do
    hash_init fuel alg size
    hash_update fuel msg size true
    digest ← hash_final d
    give (some digest)

  -- The digest; its length is what the code returns, and none is -1.
  unfoldable pub hw_hash : ℕ → HashId → ℕ → ℕ → Wait S (Option (List ℕ))
  hw_hash fuel md5 msg size = hw_alg fuel 3 4 msg size
  hw_hash fuel sha1 msg size = hw_alg fuel 0 5 msg size
  hw_hash fuel sha224 msg size = hw_alg fuel 2 7 msg size
  hw_hash fuel sha256 msg size = hw_alg fuel 1 8 msg size
  hw_hash fuel sha384 msg size = hw_alg fuel 5 12 msg size
  hw_hash fuel sha512 msg size = hw_alg fuel 4 16 msg size
  hw_hash fuel na msg size = give none
