-- ===== src/Spi/Reading.antt =====
-- What spi.c reads from the flash is complete.
use mox_boot_builder.Prelude.{
  ℕ, suc, ◌≡◌, ◌∙◌, sym, ap, some, List, [], ◌∷◌, length, replicate, length-replicate,
}
use mox_boot_builder.Bus.{Bus}
use mox_boot_builder.Bus.Wait.{◌>>=◌, ◌>>◌, give, follow-some}
use mox_boot_builder.Spi.{
  SpiDevice, read_op, spi_cs_activate, spi_cs_deactivate, spi_xfer, xfer_byte, spi_nor_read,
}

module _ {S : Type 0} (bus : Bus S) where
  -- A byte comes in for each that goes out.
  length-spi_xfer :
      (fuel : ℕ) (out : List ℕ) (s t : S) (din : List ℕ)
      → spi_xfer bus fuel out s ≡ some (din, t)
      → length din ≡ length out
  unfolding spi_xfer
  length-spi_xfer fuel [] s t din h = let nothing : [] ≡ din = cc in sym (ap length nothing)
  length-spi_xfer fuel (b ∷ out) s t din h =
      let (c, s1, r1, h1) =
        follow-some (xfer_byte bus fuel b) (λ c. spi_xfer bus fuel out >>= λ r. give (c ∷ r)) s h in
      let (rest, s2, r2, h2) = follow-some (spi_xfer bus fuel out) (λ r. give (c ∷ r)) s1 h1 in
      let all : c ∷ rest ≡ din = cc in
      sym (ap length all) ∙ ap suc (length-spi_xfer fuel out s1 s2 rest r2)

  -- A read that ends has given as many bytes as were asked for.
  pub length-spi_nor_read :
      (fuel : ℕ) (spi : SpiDevice) (place len : ℕ) (s t : S) (din : List ℕ)
      → spi_nor_read bus fuel spi place len s ≡ some (din, t)
      → length din ≡ len
  unfolding spi_nor_read
  length-spi_nor_read fuel spi place len s t din h =
      let cmd = read_op place in
      let out = replicate {A = ℕ} len 0 in
      let read = spi_xfer bus fuel out >>= λ d. spi_cs_deactivate bus spi >> give d in
      let (u1, s1, r1, h1) =
        follow-some (spi_cs_activate bus spi) (λ _. spi_xfer bus fuel cmd >>= λ _. read) s h in
      let (u2, s2, r2, h2) = follow-some (spi_xfer bus fuel cmd) (λ _. read) s1 h1 in
      let (d, s3, r3, h3) =
        follow-some (spi_xfer bus fuel out) (λ d. spi_cs_deactivate bus spi >> give d) s2 h2 in
      let (u4, s4, r4, h4) = follow-some (spi_cs_deactivate bus spi) (λ _. give d) s3 h3 in
      let same : d ≡ din = cc in
      sym (ap length same) ∙ length-spi_xfer fuel out s2 s3 d r3 ∙ length-replicate {A = ℕ} len 0
