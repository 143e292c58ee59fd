-- ===== src/Deploy/Complete.antt =====
-- What deploy.c prints when it makes a board.
use mox_boot_builder.Prelude.{
  ℕ, ◌*◌, ◌^◌, ◌≡◌, ◌⊎◌, Bool, true, false, some, List, [], ◌∷◌, ◌++◌, bit_and,
}
use mox_boot_builder.Bits.{◌>>>◌}
use mox_boot_builder.Bus.{Bus, ok, Returns}
use mox_boot_builder.Bus.Wait.{Wait}
use mox_boot_builder.Efuse.{Row, ecc_of}
use mox_boot_builder.Efuse.EccLock.{HasWrittenEcc}
use mox_boot_builder.Efuse.Rows.{efuse_read_row, efuse_read_row_no_ecc}
use mox_boot_builder.Crypto.Ecdsa.{Random, get_public_key}
use mox_boot_builder.Deploy.{
  BuilderData, Failure, Report, failed, ram, serial, board, public_key, serial_word, board_word,
  generate_and_write_ecdsa_key, board_ram,
}

-- The last that is printed is a failure.
abbrev pub EndsFailed : List Report → Type 0
EndsFailed rs = (pre : List Report) × (what : Failure) × (rs ≡ pre ++ failed what ∷ [])

module _ {S : Type 0} (bus : Bus S) (random : Random S) (fuel : ℕ) (sbfill : Bool)
    (mbd : BuilderData) where
  -- The row was read; it was locked, and nothing else has happened, or it was not, and the checked
  -- write of the word has taken place.
  abbrev pub Keeps : ℕ → ℕ → ℕ → S → S → Type 0
  Keeps row ecc_row word s t =
      (r : Row) × (u : S) × Returns (efuse_read_row_no_ecc bus row false s) r u
      × (((r.lock ≡ true) × (t ≡ u))
          ⊎ ((r.lock ≡ false) × HasWrittenEcc bus row ecc_row (ecc_of row).pos word u t))

  -- From the end of the writes on: what was read back, and from where.
  pub record IsReported (size : ℕ) (s t : S) : Type 0 where
    pub serial_row : Row
    pub at_serial : S
    pub serial_read : Returns (efuse_read_row bus 43 true s) serial_row at_serial
    pub board_row : Row
    pub at_board : S
    pub board_read : Returns (efuse_read_row bus 42 true at_serial) board_row at_board
    pub key : List ℕ
    pub key_read : get_public_key bus random fuel sbfill at_board ≡ some (ok key, t)
    pub size_read : 512 * 2 ^ bit_and (board_row.val >>> 56) 3 ≡ size

  -- A run from `s` to `t` that tells of a board that has been made.
  pub record IsComplete (known : ℕ) (rs : List Report) (s t : S) : Type 0 where
    pub size : ℕ
    pub sized : S
    pub size_found : board_ram bus random fuel sbfill mbd known s ≡ some (size, sized)
    pub code : ℕ
    pub code_of : size ≡ 512 * 2 ^ code
    pub after_serial : S
    pub serial_kept : Keeps 43 39 (serial_word mbd) sized after_serial
    pub after_board : S
    pub board_kept : Keeps 42 39 (board_word code mbd) after_serial after_board
    pub after_key : S
    pub key_made :
        generate_and_write_ecdsa_key bus random fuel sbfill mbd after_board
        ≡ some (ok tt, after_key)
    pub told : IsReported size after_key t
    pub reports :
        rs
        ≡ ram code
          ∷ serial told.serial_row.val
          ∷ board told.board_row.val
          ∷ public_key told.key
          ∷ []
