-- ===== src/Efuse/Write.antt =====
-- Programming and locking rows (efuse.c).
use mox_boot_builder.Prelude.{
  ℕ, zero, suc, ◌+◌, ◌-◌, ◌*◌, Bool, true, false, ◌&&◌, not, none, some, List, bit_and, bit_or,
  ◌==◌, ◌!=◌, ltb, if◌then◌else◌, get_or,
}
use mox_boot_builder.Bits.{◌<<◌, ◌>>>◌, u64}
use mox_boot_builder.Bus.{Bus, ok, Io, ◌>>=◌, ◌>>◌, pure, fail, writel, ndelay, udelay, setbitsl}
use mox_boot_builder.Mbox.Status.{einval, eio, eacces}
use mox_boot_builder.Efuse.{Row, efuse_ctrl, efuse_rw, efuse_rc, ecc_of}
use mox_boot_builder.Efuse.Secded.{secded_ecc}
use mox_boot_builder.Efuse.Raw.{is_row_masked, efuse_write_enable, efuse_write_disable}
use mox_boot_builder.Efuse.Rows.{read_row_any}

-- `i != row && ecc[i].row == ecc[row].row`
abbrev pub shares : ℕ → ℕ → ℕ → Bool
shares row ecc_row i = i != row && elim (ecc_of i).row [ none ↦ false | some r ↦ r == ecc_row ]

-- The check bits at their place in the row that holds them.
unfoldable pub placed_ecc : ℕ → ℕ → ℕ
placed_ecc pos word = u64 (secded_ecc word << ((pos - 1) * 8))

module _ {S : Type 0} (bus : Bus S) where
  -- `is_row_masked` among fallible steps.
  abbrev pub masked_row : ℕ → Io S Bool
  masked_row row s = let (m, s') = is_row_masked bus row s in (ok m, s')

  -- One fuse is burned: `EFUSE_RC(row, i)`, then a pulse.
  abbrev pub burn : ℕ → ℕ → Io S (Unit {0})
  burn row i = do
    writel bus (efuse_rc row i) efuse_rw
    setbitsl bus efuse_ctrl 0x100 0x100
    udelay bus 13000
    setbitsl bus efuse_ctrl 0 0x100

  -- The loop over the bits of `val` from bit `i` on, with `n` rounds left.
  unfoldable pub burn_bits : ℕ → ℕ → ℕ → ℕ → Io S (Unit {0})
  burn_bits zero i row word s = (ok tt, s)
  burn_bits (suc n) i row word s =
      (do if bit_and (word >>> i) 1 == 0 then pure tt else burn row i; burn_bits n (i + 1) row word)
        s

  abbrev pub finish_write : Io S (Unit {0})
  finish_write = do
    setbitsl bus efuse_ctrl 0x4 0x4
    setbitsl bus efuse_ctrl 0x1 0x3
    udelay bus 1000000
    efuse_write_disable bus
    udelay bus 1000000

  unfoldable pub efuse_raw_write : ℕ → ℕ → Io S (Unit {0})
  efuse_raw_write row word = do
    efuse_write_enable bus
    _ ← read_row_any bus row true false false
    setbitsl bus efuse_ctrl 0x8 0x8
    setbitsl bus efuse_ctrl 0 0x7
    ndelay bus 500
    burn_bits 64 0 row word
    finish_write

  unfoldable pub efuse_raw_lock : ℕ → Io S (Unit {0})
  efuse_raw_lock row = do
    efuse_write_enable bus
    _ ← read_row_any bus row false false false
    setbitsl bus efuse_ctrl 0x8 0x8
    setbitsl bus efuse_ctrl 0 0x5
    setbitsl bus efuse_ctrl 0x2 0x2
    ndelay bus 500
    burn row 0
    finish_write

  -- `for (try = 0; try < 5; ++try)` around `efuse_raw_write`; the result is the last `_val`.
  unfoldable pub program : ℕ → ℕ → ℕ → Bool → ℕ → Io S ℕ
  program zero row word masked seen s = (ok seen, s)
  program (suc n) row word masked seen s =
      (do
        efuse_raw_write row word
        if masked then pure seen else (do
          r ← read_row_any bus row true false false
          let retry = program n row word masked r.val
          if word == r.val then pure r.val else retry))
        s

  -- The same loop around `efuse_raw_lock`; the result is the last `_lock`.
  unfoldable pub lock_row : ℕ → ℕ → Bool → Io S Bool
  lock_row zero row seen s = (ok seen, s)
  lock_row (suc n) row seen s =
      (do
        efuse_raw_lock row
        r ← read_row_any bus row false false false
        let retry = lock_row n row r.lock
        if r.lock then pure true else retry)
        s

  -- `if (val) { … }` of `efuse_write_row_no_ecc`
  unfoldable pub write_value : ℕ → ℕ → Bool → ℕ → Io S (Unit {0})
  write_value row word masked old =
      if word == 0
      then pure tt
      else (let wanted = if masked then word else bit_or word old in
          do
            seen ← program 5 row wanted masked old
            if not masked && wanted != seen then fail Unit eio else pure tt)

  -- `if (lock) { … }`
  unfoldable pub write_lock : ℕ → Bool → Io S (Unit {0})
  write_lock row false = pure tt
  write_lock row true = do locked ← lock_row 5 row false; if locked then pure tt else fail Unit eio

  -- `efuse_write_row_no_ecc` after it has asked for the mask and read the row.
  abbrev pub write_after_read : ℕ → ℕ → Bool → Bool → Row → Io S (Unit {0})
  write_after_read row word lock masked r =
      if r.lock
      then (if word == 0 then pure tt else fail Unit eacces)
      else (do write_value row word masked r.val; write_lock row lock)

  abbrev pub write_existing : ℕ → ℕ → Bool → Io S (Unit {0})
  write_existing row word lock = do
    masked ← masked_row row
    r ← read_row_any bus row true false false
    write_after_read row word lock masked r

  unfoldable pub efuse_write_row_no_ecc : ℕ → ℕ → Bool → Io S (Unit {0})
  efuse_write_row_no_ecc row word lock =
      if ltb 43 row then fail Unit einval else write_existing row word lock

  -- The loop that looks for another row with its check bits in `ecc_row` whose lock bit is not
  -- set, from `i` on with `n` rounds left. The result is `i` where it stops.
  unfoldable pub scan_sharers : ℕ → ℕ → ℕ → ℕ → Io S ℕ
  scan_sharers zero i row ecc_row s = (ok i, s)
  scan_sharers (suc n) i row ecc_row s =
      (let more = scan_sharers n (i + 1) row ecc_row in
          let look : Io S ℕ = (do
            r ← read_row_any bus ecc_row false false false
            if r.lock then more else pure i) in
          if shares row ecc_row i then look else more)
        s

  -- The writes of `efuse_write_row_with_ecc_lock`, once it is known whether to lock the check bits.
  abbrev pub write_with_ecc : ℕ → ℕ → ℕ → ℕ → Bool → Io S (Unit {0})
  write_with_ecc row ecc_row word eccval lock_ecc = do
    efuse_write_row_no_ecc row word true
    efuse_write_row_no_ecc ecc_row eccval lock_ecc
    r ← read_row_any bus row true true false
    if r.val != word then fail Unit eio else pure tt

  abbrev pub choose_lock : ℕ → ℕ → ℕ → ℕ → Io S (Unit {0})
  choose_lock row ecc_row pos full = do
    i ← scan_sharers 44 0 row ecc_row
    write_with_ecc row ecc_row full (placed_ecc pos full) (i == 45)

  abbrev pub check_ecc_bits : ℕ → ℕ → ℕ → ℕ → Row → Bool → Io S (Unit {0})
  check_ecc_bits row ecc_row pos full e masked =
      if not masked && bit_and (e.val >>> ((pos - 1) * 8)) 0xff != 0
      then fail Unit eacces
      else choose_lock row ecc_row pos full

  abbrev pub check_ecc_row : ℕ → ℕ → ℕ → ℕ → Row → Io S (Unit {0})
  check_ecc_row row ecc_row pos full e =
      if e.lock
      then fail Unit eacces
      else (do masked ← masked_row ecc_row; check_ecc_bits row ecc_row pos full e masked)

  abbrev pub check_row : ℕ → ℕ → ℕ → ℕ → Bool → Io S (Unit {0})
  check_row row ecc_row pos full forbidden =
      if forbidden
      then fail Unit eacces
      else (do e ← read_row_any bus ecc_row true false false; check_ecc_row row ecc_row pos full e)

  -- `_lock || is_row_masked(row)`
  abbrev pub is_forbidden : ℕ → Row → Io S Bool
  is_forbidden row r = if r.lock then pure true else masked_row row

  abbrev pub after_first_read : ℕ → ℕ → ℕ → ℕ → Row → Io S (Unit {0})
  after_first_read row ecc_row pos word r = do
    forbidden ← is_forbidden row r
    check_row row ecc_row pos (bit_or word r.val) forbidden

  -- `efuse_write_row_with_ecc_lock` for a row with check bits.
  unfoldable pub write_ecc_lock_at : ℕ → ℕ → ℕ → ℕ → Io S (Unit {0})
  write_ecc_lock_at row ecc_row pos word = do
    r ← read_row_any bus row true false false
    after_first_read row ecc_row pos word r

  unfoldable pub efuse_write_row_with_ecc_lock : ℕ → ℕ → Io S (Unit {0})
  efuse_write_row_with_ecc_lock row word =
      if ltb 43 row then fail Unit einval else elim (ecc_of row).row [
        | none ↦ fail Unit einval
        | some ecc_row ↦ write_ecc_lock_at row ecc_row (ecc_of row).pos word
      ]

  -- The loop of `efuse_write_secure_buffer` over the first 16 words of the key, from word `2 * i` on.
  unfoldable pub write_key_rows : ℕ → ℕ → List ℕ → Io S (Unit {0})
  write_key_rows zero i priv s = (ok tt, s)
  write_key_rows (suc n) i priv s =
      (do
        efuse_write_row_with_ecc_lock (30 + i)
            (bit_or (get_or priv (i * 2 + 1) 0 << 32) (get_or priv (i * 2) 0))
        write_key_rows n (i + 1) priv)
        s

  unfoldable pub efuse_write_secure_buffer : List ℕ → Io S (Unit {0})
  efuse_write_secure_buffer priv = do
    write_key_rows 8 0 priv
    efuse_write_row_with_ecc_lock 40 (get_or priv 16 0)
