-- ===== src/Commands.antt =====
-- wtmi/main.c: the mailbox commands that read and write the fuses. A command takes the sixteen
-- arguments and the sixteen output words, and returns the status, the output words and the state.
pub mod Majority
pub mod ApMem
pub mod ApRam
pub mod Crypto
mod Tests
use mox_boot_builder.Prelude.{
  ℕ, zero, suc, ◌+◌, ◌*◌, ◌/◌, ◌%◌, ◌^◌, Bool, true, false, not, ◌&&◌, ◌||◌, List, [], ◌∷◌, bit_and,
  bit_or, ◌==◌, ◌!=◌, ltb, leb, if◌then◌else◌, get_or, set,
}
use mox_boot_builder.Bits.{◌<<◌, ◌>>>◌, u32, u64}
use mox_boot_builder.Bus.{Bus, Result, ok, err}
use mox_boot_builder.Mbox.Status.{sts, sts_marvell, success, failed, einval, eopnotsupp, enodata}
use mox_boot_builder.Efuse.{Row}
use mox_boot_builder.Efuse.Rows.{efuse_read_row, efuse_read_row_no_ecc}
use mox_boot_builder.Efuse.Write.{efuse_write_row_no_ecc}

abbrev pub Reply : Type 0 → Type 0
Reply S = ℕ × List ℕ × S

abbrev pub arg : List ℕ → ℕ → ℕ
arg args i = get_or args i 0

-- `if (res < 0) return MBOX_STS_MARVELL(-res); … return MBOX_STS_MARVELL(0);`
abbrev pub reply_marvell : {S A : Type 0} → Result A × S → (A → List ℕ) → List ℕ → Reply S
reply_marvell (ok a, s) f out = (sts_marvell 0, f a, s)
reply_marvell (err e, s) f out = (sts_marvell e, out, s)

-- `if (res < 0) return MBOX_STS(0, -res, FAIL); … return MBOX_STS(0, 0, SUCCESS);`
abbrev pub reply_own : {S A : Type 0} → Result A × S → (A → List ℕ) → List ℕ → Reply S
reply_own (ok a, s) f out = (sts 0 0 success, f a, s)
reply_own (err e, s) f out = (sts 0 e failed, out, s)

-- Three copies of a bit: `val == 3 || val > 4`
unfoldable pub vote : ℕ → ℕ
vote v = if v == 3 || ltb 4 v then 1 else 0

-- Which rows and offsets may hold three-bit values.
unfoldable pub bad_triple : ℕ → ℕ → Bool
bad_triple row offset = ltb 3 row || leb 64 offset || bit_and offset 3 != 0

-- `val = high; val <<= 32; val |= low;`
abbrev pub join_words : ℕ → ℕ → ℕ
join_words high low = bit_or (high << 32) low

-- The words of `cmd_board_info`: serial number, board version, RAM, two MAC addresses, device.
unfoldable pub board_words : ℕ → ℕ → List ℕ → List ℕ
board_words row42 row43 out =
    let o1 = set (set out 0 (bit_and row43 0xffffffff)) 1 (u32 (row43 >>> 32)) in
    let o2 = set o1 2 (bit_and (row42 >>> 48) 0x3f) in
    let o3 = set o2 3 (512 << bit_and (row42 >>> 56) 3) in
    let o5 = set (set o3 4 (bit_and (row42 >>> 32) 0xffff)) 5 (bit_and row42 0xffffffff) in
    let next = u64 (row42 + 1) in
    let o7 = set (set o5 6 (bit_and (next >>> 32) 0xffff)) 7 (bit_and next 0xffffffff) in
    set o7 8 (bit_and (next >>> 54) 3)

module _ {S : Type 0} (bus : Bus S) where
  unfoldable pub cmd_otp_read : List ℕ → List ℕ → S → Reply S
  cmd_otp_read args out s =
      reply_own (efuse_read_row_no_ecc bus (arg args 0) true s)
        (λ r. set (set (set out 0 (u32 r.val)) 1 (u32 (r.val >>> 32))) 2 (if r.lock then 1 else 0))
        out

  unfoldable pub cmd_otp_read_1b : List ℕ → List ℕ → S → Reply S
  cmd_otp_read_1b args out s =
      if bad_triple (arg args 0) (arg args 1)
      then (sts_marvell einval, out, s)
      else reply_marvell (efuse_read_row_no_ecc bus (arg args 0) true s)
          (λ r. set out 0 (vote (bit_and (r.val >>> arg args 1) 0x7))) out

  -- `dword` reads the whole row.
  unfoldable pub cmd_otp_read_n : ℕ → Bool → List ℕ → List ℕ → S → Reply S
  cmd_otp_read_n mask dword args out s =
      if not dword && leb 64 (arg args 1)
      then (sts_marvell einval, out, s)
      else reply_marvell (efuse_read_row_no_ecc bus (arg args 0) true s)
          (λ r.
            let v = bit_and (if dword then r.val else r.val >>> arg args 1) mask in
            let low = set out 0 (u32 v) in if dword then set low 1 (u32 (v >>> 32)) else low)
          out

  unfoldable pub cmd_otp_read_8b : List ℕ → List ℕ → S → Reply S
  cmd_otp_read_8b = cmd_otp_read_n 0xff false

  unfoldable pub cmd_otp_read_32b : List ℕ → List ℕ → S → Reply S
  cmd_otp_read_32b = cmd_otp_read_n 0xffffffff false

  unfoldable pub cmd_otp_read_64b : List ℕ → List ℕ → S → Reply S
  cmd_otp_read_64b = cmd_otp_read_n 0xffffffffffffffff true

  -- The loop over four rows from row `args[0] + i` on; words read before an error stay in `out`.
  unfoldable pub read_rows : ℕ → ℕ → List ℕ → List ℕ → S → Reply S
  read_rows zero i args out s = (sts_marvell 0, out, s)
  read_rows (suc n) i args out s =
      let (res, s1) = efuse_read_row_no_ecc bus (u32 (arg args 0 + i)) true s in
      elim res [
        | ok r ↦
            read_rows n (i + 1) args
              (set (set out (2 * i) (u32 r.val)) (2 * i + 1) (u32 (r.val >>> 32))) s1
        | err e ↦ (sts_marvell e, out, s1)
      ]

  unfoldable pub cmd_otp_read_256b : List ℕ → List ℕ → S → Reply S
  cmd_otp_read_256b = read_rows 4 0

  unfoldable pub cmd_otp_write : List ℕ → List ℕ → S → Reply S
  cmd_otp_write args out s =
      let word = join_words (arg args 2) (arg args 1) in
      reply_own (efuse_write_row_no_ecc bus (arg args 0) word (arg args 3 != 0) s) (λ _. out) out

  unfoldable pub cmd_otp_write_1b : List ℕ → List ℕ → S → Reply S
  cmd_otp_write_1b args out s =
      if bad_triple (arg args 0) (arg args 1)
      then (sts_marvell einval, out, s)
      else (let triple = if bit_and (arg args 2) 1 == 0 then 0 else 7 in
          reply_marvell
            (efuse_write_row_no_ecc bus (arg args 0) (u64 (triple << arg args 1)) false s)
            (λ _. out) out)

  unfoldable pub cmd_otp_write_n : ℕ → List ℕ → List ℕ → S → Reply S
  cmd_otp_write_n mask args out s =
      if leb 64 (arg args 1)
      then (sts_marvell einval, out, s)
      else (let word = u64 (bit_and (arg args 2) mask << arg args 1) in
          reply_marvell (efuse_write_row_no_ecc bus (arg args 0) word false s) (λ _. out) out)

  unfoldable pub cmd_otp_write_8b : List ℕ → List ℕ → S → Reply S
  cmd_otp_write_8b = cmd_otp_write_n 0xff

  unfoldable pub cmd_otp_write_32b : List ℕ → List ℕ → S → Reply S
  cmd_otp_write_32b = cmd_otp_write_n 0xffffffff

  unfoldable pub cmd_otp_write_64b : List ℕ → List ℕ → S → Reply S
  cmd_otp_write_64b args out s =
      let word = join_words (arg args 2) (arg args 1) in
      reply_marvell (efuse_write_row_no_ecc bus (arg args 0) word false s) (λ _. out) out

  -- The loop over four rows, two words of the arguments for each.
  unfoldable pub write_rows : ℕ → ℕ → List ℕ → List ℕ → S → Reply S
  write_rows zero i args out s = (sts_marvell 0, out, s)
  write_rows (suc n) i args out s =
      let word = join_words (arg args (2 * i + 2)) (arg args (2 * i + 1)) in
      let (res, s1) = efuse_write_row_no_ecc bus (u32 (arg args 0 + i)) word false s in
      elim res [ ok u ↦ write_rows n (i + 1) args out s1 | err e ↦ (sts_marvell e, out, s1) ]

  unfoldable pub cmd_otp_write_256b : List ℕ → List ℕ → S → Reply S
  cmd_otp_write_256b = write_rows 4 0

  -- A row for `cmd_board_info`: it has to be locked.
  abbrev board_row : ℕ → (Row → S → Reply S) → List ℕ → S → Reply S
  board_row row use_row out s =
      let (res, s1) = efuse_read_row bus row true s in
      elim res [
        | ok r ↦ if r.lock then use_row r s1 else (sts 0 enodata failed, out, s1)
        | err e ↦ (sts 0 e failed, out, s1)
      ]

  unfoldable pub cmd_board_info : List ℕ → List ℕ → S → Reply S
  cmd_board_info args out s =
      board_row 42
        (λ r42 s1.
          board_row 43 (λ r43 s2. (sts 0 0 success, board_words r42.val r43.val out, s2)) out s1)
        out s
