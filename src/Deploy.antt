-- ===== src/Deploy.antt =====
-- wtmi/deploy.c: what is written to the fuses when a board is made, and what is printed about it.
-- The data that the program for production puts into the image is the record BuilderData. A report
-- stands for a call of `printf`. Loops that wait have fuel.
pub mod Fields
pub mod Locked
pub mod Complete
mod Tests
use mox_boot_builder.Prelude.{
  ℕ, zero, suc, ◌+◌, ◌-◌, ◌*◌, ◌/◌, ◌^◌, Bool, true, false, not, ◌&&◌, Option, none, some, List, [],
  ◌∷◌, ◌++◌, bit_and, bit_or, ◌==◌, ◌!=◌, leb, if◌then◌else◌, get_or,
}
use mox_boot_builder.Bits.{u32, u64, ◌<<◌, ◌>>>◌}
use mox_boot_builder.Bus.{Bus, Result, ok, err, Io, pure}
use mox_boot_builder.Bus
use mox_boot_builder.Bus.Wait.{Wait, ◌>>=◌, ◌>>◌, give, if_ok, run, load, put, sleep}
use mox_boot_builder.Efuse.{Row}
use mox_boot_builder.Efuse.Raw.{is_row_masked}
use mox_boot_builder.Efuse.Rows.{efuse_read_row, efuse_read_row_no_ecc, read_row_any}
use mox_boot_builder.Efuse.Write.{efuse_write_row_with_ecc_lock}
use mox_boot_builder.Crypto.Ecdsa.{Random, generate_private_key, get_public_key}

-- `struct mox_builder_data`
pub record BuilderData : Type 0 where
  pub op : ℕ
  pub serial_number_low : ℕ
  pub serial_number_high : ℕ
  pub mac_addr_low : ℕ
  pub mac_addr_high : ℕ
  pub board_version : ℕ
  pub otp_hash : List ℕ

-- -1 is none.
unfoldable pub ram_size_code : ℕ → Option ℕ
ram_size_code ram_size =
    if ram_size == 512
    then some 0
    else if ram_size == 1024
    then some 1
    else if ram_size == 2048
    then some 2
    else if ram_size == 4096
    then some 3
    else none

unfoldable pub is_ripe : BuilderData → Bool
is_ripe mbd = bit_and (mbd.board_version >>> 6) 0x3 == 0x2

-- The row of `write_sn`.
unfoldable pub serial_word : BuilderData → ℕ
serial_word mbd = bit_or (u64 (mbd.serial_number_high << 32)) mbd.serial_number_low

-- The row of `write_ram_bver_mac`.
unfoldable pub board_word : ℕ → BuilderData → ℕ
board_word code mbd =
    let v1 = bit_or (u64 (code << 8)) (bit_and mbd.board_version 0xff) in
    let v2 = bit_or (u64 (v1 << 16)) (bit_and mbd.mac_addr_high 0xffff) in
    bit_or (u64 (v2 << 32)) mbd.mac_addr_low

-- `cs_reg_to_ram_size` of ddr.c, on the value of the register
unfoldable pub chip_size : ℕ → ℕ
chip_size reg =
    let size = bit_and (reg >>> 16) 0x1f in
    if bit_and reg 1 == 0 then 0 else if leb 7 size then 1 << (size - 4) else (1 << size) * 384

-- The texts of `die`, and the last line of `_deploy`.
pub data Failure : Type 0 where
  determine_ram write_serial write_board write_key read_serial read_board bad_ram read_key
        write_security unknown_op :
      Failure

-- What is printed: a failure, or a value that has been read back.
pub data Report : Type 0 where
  failed : Failure → Report
  ram : ℕ → Report
  serial : ℕ → Report
  board : ℕ → Report
  public_key : List ℕ → Report
  otp_row : ℕ → ℕ → Report
  trusted : Report

-- All rows of the fuses that secure the board, as they are written.
unfoldable pub security_rows : BuilderData → List (ℕ × ℕ)
security_rows mbd =
    let word = λ (i : ℕ). bit_or (get_or mbd.otp_hash (i + 1) 0 << 32) (get_or mbd.otp_hash i 0) in
    (8, word 0)
    ∷ (9, word 2)
    ∷ (10, word 4)
    ∷ (11, word 6)
    ∷ (0, 0x70000070000700)
    ∷ (1, if is_ripe mbd then 0x0070000700000070 else 0x70)
    ∷ (2, 0x70770000)
    ∷ (3, 0x7)
    ∷ []

-- The loop that looks for a word of the hash that is not 0.
unfoldable pub has_hash : ℕ → ℕ → List ℕ → Bool
has_hash zero i hash = false
has_hash (suc n) i hash = if get_or hash i 0 == 0 then has_hash n (i + 1) hash else true

module _ {S : Type 0} (bus : Bus S) where
  unfoldable pub row_write_if_not_locked : ℕ → ℕ → Io S (Unit {0})
  row_write_if_not_locked row word =
      Bus.◌>>=◌ (efuse_read_row_no_ecc bus row false)
        λ r. if r.lock then pure tt else efuse_write_row_with_ecc_lock bus row word

  -- Writes whose results are not looked at.
  unfoldable pub write_all : List (ℕ × ℕ) → S → S
  write_all [] s = s
  write_all ((row, word) ∷ rows) s = write_all rows (efuse_write_row_with_ecc_lock bus row word s).1

  unfoldable pub write_security_info : BuilderData → Io S (Unit {0})
  write_security_info mbd =
      if has_hash 8 0 mbd.otp_hash
      then Bus.◌>>=◌ (efuse_read_row_no_ecc bus 0 false)
          (λ r s. (ok tt, if r.lock then s else write_all (security_rows mbd) s))
      else pure tt

  -- `get_ram_size` of ddr.c; `known` is its static variable. A size is a sum of two in MiB.
  unfoldable pub get_ram_size : ℕ → Wait S ℕ
  get_ram_size known = if known != 0 then give known else (do
    first ← load bus 0xc0000200
    second ← load bus 0xc0000208
    give (chip_size first + chip_size second))

  -- A report, and those that follow it.
  abbrev pub report : Report → Wait S (List Report) → Wait S (List Report)
  report r m = m >>= λ rs. give (r ∷ rs)

  -- `if (… < 0) die(…);`
  abbrev pub or_die :
      {A : Type 0} → Failure → (A → Wait S (List Report)) → Result A → Wait S (List Report)
  or_die what k (ok a) = k a
  or_die what k (err e) = give (failed what ∷ [])

  abbrev pub die : Failure → Wait S (List Report)
  die what = give (failed what ∷ [])

  -- `res ? 2 : 0`
  abbrev res_bit : Result Row → Bool → ℕ
  res_bit (ok r) masked = if masked then 2 else 0
  res_bit (err e) masked = 2

  -- What `val` and `lock` hold behind a read; one that fails leaves them as they were.
  abbrev held_after : Row → Result Row → Row
  held_after held (ok r) = r
  held_after held (err e) = held

  -- The loop of `_deploy` over the rows, from row `i` on, with what `val` and `lock` hold. A row that
  -- is masked is read all the same, and `efuse_read_row_no_ecc` then returns an error.
  unfoldable pub otp_rows : ℕ → ℕ → Row → Wait S (List Report)
  otp_rows zero i held s = some ([], s)
  otp_rows (suc n) i held s =
      let (res, s1) = read_row_any bus i true false false s in
      let (masked, s2) = is_row_masked bus i s1 in
      let row = held_after held res in
      report (otp_row (bit_or (if row.lock then 1 else 0) (res_bit res masked)) row.val)
        (otp_rows n (i + 1) row) s2

module _ {S : Type 0} (bus : Bus S) (random : Random S) (fuel : ℕ) (sbfill : Bool)
    (mbd : BuilderData) where
  unfoldable pub generate_and_write_ecdsa_key : Wait S (Result (Unit {0}))
  generate_and_write_ecdsa_key =
      run (efuse_read_row_no_ecc bus 30 false)
      >>= if_ok (λ r. if r.lock then give (ok tt) else generate_private_key bus random fuel)

  abbrev pub send_key : Wait S (List Report)
  send_key =
      get_public_key bus random fuel sbfill
      >>= or_die bus read_key (λ words. give (public_key words ∷ []))

  -- The end of `do_deploy`, once row 42 has been read.
  abbrev pub send_board : ℕ → Row → Wait S (List Report)
  send_board ram_size r =
      if 512 << bit_and (r.val >>> 56) 3 != ram_size
      then die bus bad_ram
      else report bus (board r.val) send_key

  abbrev pub send_rows : ℕ → Row → Wait S (List Report)
  send_rows ram_size r =
      report bus (serial r.val)
        (run (efuse_read_row bus 42 true) >>= or_die bus read_board (send_board ram_size))

  -- `do_deploy` from where it sends the size of the RAM.
  abbrev pub send_all : ℕ → ℕ → Wait S (List Report)
  send_all ram_size code =
      report bus (ram code)
        (run (efuse_read_row bus 43 true) >>= or_die bus read_serial (send_rows ram_size))

  abbrev pub write_then_send : ℕ → Option ℕ → Wait S (List Report)
  write_then_send ram_size none = die bus determine_ram
  write_then_send ram_size (some code) =
      run (row_write_if_not_locked bus 43 (serial_word mbd))
      >>= or_die bus write_serial (λ _.
        run (row_write_if_not_locked bus 42 (board_word code mbd))
        >>= or_die bus write_board (λ _.
          generate_and_write_ecdsa_key >>= or_die bus write_key (λ _. send_all ram_size code)))

  abbrev pub board_ram : ℕ → Wait S ℕ
  board_ram known = if is_ripe mbd then give 512 else get_ram_size bus known

  unfoldable pub do_deploy : ℕ → Wait S (List Report)
  do_deploy known = board_ram known >>= λ size. write_then_send size (ram_size_code size)

  unfoldable pub do_deploy_trust_only : Wait S (List Report)
  do_deploy_trust_only =
      run (write_security_info bus mbd) >>= or_die bus write_security (λ _. give (trusted ∷ []))

  -- `_deploy`, for the operation without its bit 31; `stale` is what the stack holds at `val` and
  -- `lock`.
  unfoldable pub deploy_op : Row → ℕ → ℕ → Wait S (List Report)
  deploy_op stale known op =
      if op == 0
      then otp_rows bus 44 0 stale
      else if op == 1
      then do_deploy known
      else if op == 2
      then do_deploy_trust_only
      else die bus unknown_op

  -- `deploy`: with true, the board is reset and the code waits for that.
  unfoldable pub deploy : Row → ℕ → Wait S (List Report × Bool)
  deploy stale known =
      if bit_and mbd.op (2 ^ 31) == 0
      then (do
        rs ← deploy_op stale known mbd.op
        sleep bus 10000000
        put bus 0x1d1e 0xc0013840
        give (rs, true))
      else (do rs ← deploy_op stale known (bit_and mbd.op (2 ^ 31 - 1)); give (rs, false))
