-- ===== src/Efuse/EccLock.antt =====
-- `efuse_write_row_with_ecc_lock` of efuse.c: what a call that reports success has done.
use mathlib.Core.Bool.{false≢true}
use mox_boot_builder.Prelude.{
  ℕ, zero, suc, ◌+◌, ◌-◌, ◌*◌, ◌≤◌, ◌≡◌, sym, subst, ◌∙◌, arith, Bool, true, false, not, ◌&&◌,
  Option, none, some, bit_and, bit_or, ◌==◌, ◌!=◌, if◌then◌else◌, inl, inr, ltb,
}
use mox_boot_builder.Bus.{
  Bus, Io, Returns, follow-ok, if-ok, ok-injective, err-ne-ok, pure, fail, ◌>>=◌,
}
use mox_boot_builder.Bits.{◌>>>◌}
use mox_boot_builder.Mbox.Status.{einval, eacces}
use mox_boot_builder.Efuse.{Row, ecc_of}
use mox_boot_builder.Efuse.Rows.{read_row_any}
use mox_boot_builder.Efuse.Verified.{check-ok}
use mox_boot_builder.Efuse.Write.{
  masked_row, efuse_write_row_no_ecc, scan_sharers, shares, write_with_ecc, placed_ecc, choose_lock,
  check_ecc_bits, check_ecc_row, check_row, is_forbidden, after_first_read, write_ecc_lock_at,
  efuse_write_row_with_ecc_lock,
}

module _ {S : Type 0} (bus : Bus S) where
  -- The loop over the 44 rows ends with `i` at most 44.
  scan-le :
      (n i row ecc_row : ℕ) (s : S) {k : ℕ} {t : S}
      → Returns (scan_sharers bus n i row ecc_row s) k t
      → k ≤ i + n
  unfolding scan_sharers
  scan-le zero i row ecc_row s h = omega (arith, (ok-injective i s h).0)
  scan-le (suc n) i row ecc_row s {k} {t} h =
      let more = scan_sharers bus n (i + 1) row ecc_row in
      let look : Io S ℕ = (do
        r ← read_row_any bus ecc_row false false false
        if r.lock then more else pure i) in
      elim (if-ok (shares row ecc_row i) look more s h) [
        | inr (e, h1) ↦ omega (arith, scan-le n (i + 1) row ecc_row s h1)
        | inl (e, h1) ↦
            let (r, s1, read, h2) = follow-ok (read_row_any bus ecc_row false false false s) _ h1 in
            elim (if-ok r.lock more (pure i) s1 h2) [
              | inl (l, h3) ↦ omega (arith, scan-le n (i + 1) row ecc_row s1 h3)
              | inr (l, h3) ↦ omega (arith, (ok-injective i s1 h3).0)
            ]
      ]

  -- From the state `s` on, the row was read as `old` and without its lock bit, it is not masked, and
  -- the row of its check bits was read without its lock bit.
  pub record IsOpen (row ecc_row : ℕ) (old : Row) (s : S) : Type 0 where
    pub opened : S
    pub old_read : Returns (read_row_any bus row true false false s) old opened
    pub unlocked : old.lock ≡ false
    pub asked : S
    pub not_masked : Returns (masked_row bus row opened) false asked
    pub ecc_old : Row
    pub ecc_at : S
    pub ecc_read : Returns (read_row_any bus ecc_row true false false asked) ecc_old ecc_at
    pub ecc_unlocked : ecc_old.lock ≡ false

  -- What the rows were found to be, the two writes of a successful call, and the read with check
  -- bits that ends it.
  pub record HasWrittenEcc (row ecc_row pos word : ℕ) (s t : S) : Type 0 where
    pub old : Row
    pub state : IsOpen row ecc_row old s
    pub before : S
    pub between : S
    pub after : S
    pub row_written :
        Returns (efuse_write_row_no_ecc bus row (bit_or word old.val) true before) tt between
    pub ecc_written :
        Returns
          (efuse_write_row_no_ecc bus ecc_row (placed_ecc pos (bit_or word old.val)) false between)
          tt
          after
    pub got : Row
    pub read_back : Returns (read_row_any bus row true true false after) got t
    pub value : got.val ≡ bit_or word old.val

  choose_lock-HasWrittenEcc :
      (row ecc_row pos word : ℕ) (old : Row) (s0 s : S) {t : S}
      → IsOpen row ecc_row old s0
      → Returns (choose_lock bus row ecc_row pos (bit_or word old.val) s) tt t
      → HasWrittenEcc row ecc_row pos word s0 t
  choose_lock-HasWrittenEcc row ecc_row pos word old s0 s {t} found h =
      let full = bit_or word old.val in
      let bits = placed_ecc pos full in
      let (i, s1, scanned, h1) =
        follow-ok (scan_sharers bus 44 0 row ecc_row s)
          (λ i. write_with_ecc bus row ecc_row full bits (i == 45)) h in
      let never : (i == 45) ≡ false = ground (arith, scan-le 44 0 row ecc_row s scanned) in
      let h2 = subst (λ b. Returns (write_with_ecc bus row ecc_row full bits b s1) tt t) never h1 in
      let (u, s2, first, h3) = follow-ok (efuse_write_row_no_ecc bus row full true s1) _ h2 in
      let (v, s3, second, h4) = follow-ok (efuse_write_row_no_ecc bus ecc_row bits false s2) _ h3 in
      let (r, s4, read, h5) = follow-ok (read_row_any bus row true true false s3) _ h4 in
      let (same, e) = check-ok (r.val != full) s4 h5 in
      record {
        old = old;
        state = found;
        before = s1;
        between = s2;
        after = s3;
        row_written = first;
        ecc_written = second;
        got = r;
        read_back = subst (λ z. Returns (read_row_any bus row true true false s3) r z) e read;
        value = ground arith;
      }

  abbrev read_ecc : ℕ → ℕ → ℕ → ℕ → Io S (Unit {0})
  read_ecc row ecc_row pos full = do
    e ← read_row_any bus ecc_row true false false
    check_ecc_row bus row ecc_row pos full e

  abbrev ask_mask : ℕ → ℕ → ℕ → ℕ → Row → Io S (Unit {0})
  ask_mask row ecc_row pos full e = do
    masked ← masked_row bus ecc_row
    check_ecc_bits bus row ecc_row pos full e masked

  not_locked :
      (row : ℕ) (r : Row) (s : S) (f : Bool) (s1 : S)
      → Returns (is_forbidden bus row r s) f s1
      → f ≡ false
      → (r.lock ≡ false) × Returns (masked_row bus row s) false s1
  not_locked row r s f s1 h e = elim (if-ok r.lock (pure true) (masked_row bus row) s h) [
    | inl (l, h1) ↦ let p = (ok-injective true s h1).0 in absurd (false≢true (sym (p ∙ e)))
    | inr (l, h1) ↦ (l, subst (λ b. Returns (masked_row bus row s) b s1) e h1)
  ]

  abbrev by_place : ℕ → ℕ → Option ℕ → Io S (Unit {0})
  by_place row word o = elim o [
    | none ↦ fail Unit einval
    | some ecc_row ↦ write_ecc_lock_at bus row ecc_row (ecc_of row).pos word
  ]

  after_first_read-HasWrittenEcc :
      (row ecc_row pos word : ℕ) (old : Row) (s0 s : S) {t : S}
      → Returns (read_row_any bus row true false false s0) old s
      → Returns (after_first_read bus row ecc_row pos word old s) tt t
      → HasWrittenEcc row ecc_row pos word s0 t
  after_first_read-HasWrittenEcc row ecc_row pos word old s0 s {t} first h =
      let full = bit_or word old.val in
      let (f, s1, asked, h1) =
        follow-ok (is_forbidden bus row old s) (check_row bus row ecc_row pos full) h in
      elim (if-ok f (fail Unit eacces) (read_ecc row ecc_row pos full) s1 h1) [
        | inl (e, h2) ↦ absurd (err-ne-ok eacces s1 h2)
        | inr (e, h2) ↦
            let (r, s2, read, h3) =
              follow-ok (read_row_any bus ecc_row true false false s1)
                (check_ecc_row bus row ecc_row pos full) h2 in
            elim (if-ok r.lock (fail Unit eacces) (ask_mask row ecc_row pos full r) s2 h3) [
              | inl (l, h4) ↦ absurd (err-ne-ok eacces s2 h4)
              | inr (l, h4) ↦
                  let (m, s3, masked, h5) =
                    follow-ok (masked_row bus ecc_row s2)
                      (check_ecc_bits bus row ecc_row pos full r) h4 in
                  elim (if-ok (not m && bit_and (r.val >>> ((pos - 1) * 8)) 0xff != 0)
                    (fail Unit eacces) (choose_lock bus row ecc_row pos full) s3 h5) [
                      | inl (b, h6) ↦ absurd (err-ne-ok eacces s3 h6)
                      | inr (b, h6) ↦
                          let (unlocked, free) = not_locked row old s f s1 asked e in
                          choose_lock-HasWrittenEcc row ecc_row pos word old s0 s3
                            (record {
                              opened = s;
                              old_read = first;
                              unlocked = unlocked;
                              asked = s1;
                              not_masked = free;
                              ecc_old = r;
                              ecc_at = s2;
                              ecc_read = read;
                              ecc_unlocked = l;
                            })
                            h6
                    ]
            ]
      ]

  -- A call of `efuse_write_row_with_ecc_lock` that reports success on a row with check bits: the
  -- row was read first, as not locked, and it is not masked; the row of its check bits was read as
  -- not locked; the value joined with the one that was read was written to the row with its lock;
  -- the matching check bits were then written to their row, without asking for that row's lock;
  -- and the last thing that happened is a read of the row with its check bits that returned the
  -- value and no uncorrectable error.
  pub write_with_ecc_lock-HasWrittenEcc :
      (row ecc_row word : ℕ) (s : S) {t : S}
      → (ecc_of row).row ≡ some ecc_row
      → Returns (efuse_write_row_with_ecc_lock bus row word s) tt t
      → HasWrittenEcc row ecc_row (ecc_of row).pos word s t
  unfolding efuse_write_row_with_ecc_lock write_ecc_lock_at
  write_with_ecc_lock-HasWrittenEcc row ecc_row word s {t} place h =
      elim (if-ok (ltb 43 row) (fail Unit einval) (by_place row word (ecc_of row).row) s h) [
        | inl (e, h1) ↦ absurd (err-ne-ok einval s h1)
        | inr (e, h1) ↦
            let h2 = subst (λ o. Returns (by_place row word o s) tt t) place h1 in
            let (r, s1, read, h3) =
              follow-ok (read_row_any bus row true false false s)
                (after_first_read bus row ecc_row (ecc_of row).pos word) h2 in
            after_first_read-HasWrittenEcc row ecc_row (ecc_of row).pos word r s s1 read h3
      ]
