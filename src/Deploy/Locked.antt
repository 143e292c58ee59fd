-- ===== src/Deploy/Locked.antt =====
-- deploy.c leaves a locked row alone, and programs another by the checked write of efuse.c.
use mox_boot_builder.Prelude.{ℕ, ◌≡◌, sym, inl, inr, ◌⊎◌, true, false, some, if◌then◌else◌}
use mox_boot_builder.Bus.{Bus, Returns, follow-ok, if-ok, ok-injective, pure}
use mox_boot_builder.Efuse.{Row, ecc_of}
use mox_boot_builder.Efuse.Rows.{efuse_read_row_no_ecc}
use mox_boot_builder.Efuse.Write.{efuse_write_row_with_ecc_lock}
use mox_boot_builder.Efuse.EccLock.{HasWrittenEcc, write_with_ecc_lock-HasWrittenEcc}
use mox_boot_builder.Deploy.{row_write_if_not_locked}

module _ {S : Type 0} (bus : Bus S) where
  -- If `row_write_if_not_locked` reports success on a row with check bits, then it has read the row;
  -- and either the row was locked and nothing else has happened, or it was not and the checked
  -- write of the value has taken place, with the row's check bits and its lock.
  pub row_write_if_not_locked_lem :
      (row ecc_row word : ℕ) (s : S) {t : S}
      → (ecc_of row).row ≡ some ecc_row
      → Returns (row_write_if_not_locked bus row word s) tt t
      → (r : Row) × (u : S) × Returns (efuse_read_row_no_ecc bus row false s) r u
        × (((r.lock ≡ true) × (t ≡ u))
            ⊎ ((r.lock ≡ false) × HasWrittenEcc bus row ecc_row (ecc_of row).pos word u t))
  unfolding row_write_if_not_locked
  row_write_if_not_locked_lem row ecc_row word s {t} place h =
      let write = efuse_write_row_with_ecc_lock bus row word in
      let (r, u, read, h1) =
        follow-ok (efuse_read_row_no_ecc bus row false s) (λ r. if r.lock then pure tt else write)
          h in
      (
        r,
        u,
        read,
        elim (if-ok r.lock (pure tt) write u h1) [
          | inl (e, h2) ↦ inl (e, sym (ok-injective tt u h2).1)
          | inr (e, h2) ↦ inr (e, write_with_ecc_lock-HasWrittenEcc bus row ecc_row word u place h2)
        ],
      )
