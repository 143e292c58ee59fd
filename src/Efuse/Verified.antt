-- ===== src/Efuse/Verified.antt =====
-- A write of efuse.c that reports success has read back what it wrote.
use mox_boot_builder.Prelude.{
  ℕ, zero, suc, ◌<◌, ◌≡◌, ◌≢◌, refl, subst, arith, ◌⊎◌, Bool, true, false, ◌==◌, ◌!=◌, ltb,
  if◌then◌else◌, bit_or, inl, inr, ==→eq,
}
use mathlib.Core.Bool.{false≢true}
use mox_boot_builder.Bus.{
  Bus, Io, follow-ok, ok-injective, err-ne-ok, Returns, if-ok, ◌>>=◌, ◌>>◌, pure, fail, setbitsl,
  ndelay,
}
use mox_boot_builder.Mbox.Status.{eio, einval, eacces}
use mox_boot_builder.Efuse.{Row, efuse_ctrl}
use mox_boot_builder.Efuse.Raw.{efuse_write_enable}
use mox_boot_builder.Efuse.Rows.{read_row_any}
use mox_boot_builder.Efuse.Write.{
  program, lock_row, write_value, write_lock, efuse_write_row_no_ecc, write_existing,
  write_after_read, masked_row, efuse_raw_write, efuse_raw_lock, burn_bits, finish_write,
}

-- `if (bad) return -EIO;` that was passed
pub check-ok :
    {S : Type 0} (bad : Bool) (s : S) {t : S}
    → Returns ((if bad then fail Unit eio else pure tt) s) tt t
    → (bad ≡ false) × (s ≡ t)
check-ok true s h = absurd (err-ne-ok eio s h)
check-ok false s h = (refl, (ok-injective tt s h).1)

module _ {S : Type 0} (bus : Bus S) where
  -- The last thing that happened is a read of the row, and its lock bit was set.
  pub record HasReadLock (row : ℕ) (now : S) : Type 0 where
    pub before : S
    pub got : Row
    pub happened : Returns (read_row_any bus row false false false before) got now
    pub locked : got.lock ≡ true

  -- The fuses of `word` were burned in the row, and the write was finished; then the row was read,
  -- as the last thing that happened, and it returned `v`.
  pub record HasProgrammed (row word v : ℕ) (now : S) : Type 0 where
    pub started : S
    pub pulsed : S
    pub burned : Returns (burn_bits bus 64 0 row word started) tt pulsed
    pub ended : S
    pub finished : Returns (finish_write bus pulsed) tt ended
    pub got : Row
    pub happened : Returns (read_row_any bus row true false false ended) got now
    pub value : got.val ≡ v

  attempt-HasProgrammed :
      (row word : ℕ) (r : Row) (s s1 s2 : S)
      → Returns (efuse_raw_write bus row word s) tt s1
      → Returns (read_row_any bus row true false false s1) r s2
      → HasProgrammed row word r.val s2
  unfolding efuse_raw_write
  attempt-HasProgrammed row word r s s1 s2 wrote read =
      let burning = burn_bits bus 64 0 row word >> finish_write bus in
      let waiting = ndelay bus 500 >> burning in
      let clearing = setbitsl bus efuse_ctrl 0 0x7 >> waiting in
      let setting = setbitsl bus efuse_ctrl 0x8 0x8 >> clearing in
      let (u0, t0, ran0, h0) = follow-ok (efuse_write_enable bus s) _ wrote in
      let (r1, t1, ran1, h1) =
        follow-ok (read_row_any bus row true false false t0) (λ _. setting) h0 in
      let (u2, t2, ran2, h2) = follow-ok (setbitsl bus efuse_ctrl 0x8 0x8 t1) (λ _. clearing) h1 in
      let (u3, t3, ran3, h3) = follow-ok (setbitsl bus efuse_ctrl 0 0x7 t2) (λ _. waiting) h2 in
      let (u4, t4, ran4, h4) = follow-ok (ndelay bus 500 t3) (λ _. burning) h3 in
      let (u5, t5, ran5, h5) =
        follow-ok (burn_bits bus 64 0 row word t4) (λ _. finish_write bus) h4 in
      record {
        started = t4;
        pulsed = t5;
        burned = ran5;
        ended = s1;
        finished = h5;
        got = r;
        happened = read;
        value = refl;
      }

  -- One attempt, and either the end or the attempts that are left.
  program_once :
      (n row word seen : ℕ) (s : S) {v : ℕ} {t : S}
      → Returns (program bus (suc n) row word false seen s) v t
      → (r : ℕ) × (s2 : S) × HasProgrammed row word r s2
        × (((r ≡ v) × (s2 ≡ t)) ⊎ Returns (program bus n row word false r s2) v t)
  unfolding program
  program_once n row word seen s {v} {t} h =
      let (u, s1, wrote, h1) = follow-ok (efuse_raw_write bus row word s) _ h in
      let (r, s2, read, h2) = follow-ok (read_row_any bus row true false false s1) _ h1 in
      (
        r.val,
        s2,
        attempt-HasProgrammed row word r s s1 s2 wrote read,
        elim (if-ok (word == r.val) (pure r.val) (program bus n row word false r.val) s2 h2) [
          | inl (e, h3) ↦ inl (ok-injective r.val s2 h3)
          | inr (e, h3) ↦ inr h3
        ],
      )

  moved :
      (row word : ℕ) {r v : ℕ} {s t : S}
      → r ≡ v
      → s ≡ t
      → HasProgrammed row word r s
      → HasProgrammed row word v t
  moved row word {r} {v} {s} {t} p q done =
      subst (λ w. HasProgrammed row word w t) p (subst (λ z. HasProgrammed row word r z) q done)

  -- Any number of attempts but none.
  program-HasProgrammed :
      (n row word seen : ℕ) (s : S) {v : ℕ} {t : S}
      → Returns (program bus (suc n) row word false seen s) v t
      → HasProgrammed row word v t
  unfolding program
  program-HasProgrammed zero row word seen s h =
      let (r, s2, done, next) = program_once zero row word seen s h in
      elim next [
        | inl (p, q) ↦ moved row word p q done
        | inr h3 ↦ let e = ok-injective r s2 h3 in moved row word e.0 e.1 done
      ]
  program-HasProgrammed (suc n) row word seen s h =
      let (r, s2, done, next) = program_once (suc n) row word seen s h in
      elim next [
        | inl (p, q) ↦ moved row word p q done
        | inr h3 ↦ program-HasProgrammed n row word r s2 h3
      ]

  lock_row-HasReadLock :
      (n row : ℕ) (s : S) {t : S} → Returns (lock_row bus n row false s) true t → HasReadLock row t
  unfolding lock_row
  lock_row-HasReadLock zero row s h = absurd (false≢true (ok-injective false s h).0)
  lock_row-HasReadLock (suc n) row s {t} h =
      let (u, s1, wrote, h1) = follow-ok (efuse_raw_lock bus row s) _ h in
      let (r, s2, read, h2) = follow-ok (read_row_any bus row false false false s1) _ h1 in
      elim (if-ok r.lock (pure true) (lock_row bus n row r.lock) s2 h2) [
        | inl (e, h3) ↦
            let p = ok-injective true s2 h3 in
            subst (λ z. HasReadLock row z) p.1
              (record { before = s1; got = r; happened = read; locked = e })
        | inr (e, h3) ↦
            lock_row-HasReadLock n row s2
              (subst (λ l. Returns (lock_row bus n row l s2) true t) e h3)
      ]

  write_lock-HasReadLock :
      (row : ℕ) (s : S) {t : S} → Returns (write_lock bus row true s) tt t → HasReadLock row t
  unfolding write_lock
  write_lock-HasReadLock row s {t} h =
      let (l, s1, locked, h1) = follow-ok (lock_row bus 5 row false s) _ h in
      elim (if-ok l (pure tt) (fail Unit eio) s1 h1) [
        | inl (e, h2) ↦ lock_row-HasReadLock 5 row s (
            subst (λ b. Returns (lock_row bus 5 row false s) b t) e
              (subst (λ z. Returns (lock_row bus 5 row false s) l z) (ok-injective tt s1 h2).1
                locked))
        | inr (e, h2) ↦ absurd (err-ne-ok eio s1 h2)
      ]

  -- The branch of `write_value` that programs.
  abbrev write_bits : ℕ → ℕ → ℕ → Io S (Unit {0})
  write_bits row word old = do
    seen ← program bus 5 row (bit_or word old) false old
    if bit_or word old != seen then fail Unit eio else pure tt

  write_value-HasProgrammed :
      (row word old : ℕ) (s : S) {t : S}
      → word ≢ 0
      → Returns (write_value bus row word false old s) tt t
      → HasProgrammed row (bit_or word old) (bit_or word old) t
  unfolding write_value
  write_value-HasProgrammed row word old s {t} some_bit h =
      elim (if-ok (word == 0) (pure tt) (write_bits row word old) s h) [
        | inl (e, h0) ↦ absurd (some_bit (==→eq word 0 e))
        | inr (e, h0) ↦
            let full = bit_or word old in
            let (v, s1, done, h1) = follow-ok (program bus 5 row full false old s) _ h0 in
            let (same, e1) = check-ok (full != v) s1 h1 in
            moved row full (ground arith) e1 (program-HasProgrammed 4 row full old s done)
      ]

  -- What a successful write of `efuse_write_row_no_ecc` has done, from the state `s` to `t`.
  pub record HasWritten (row word : ℕ) (lock : Bool) (s t : S) : Type 0 where
    pub in_range : row < 44
    pub masked : Bool
    pub asked : S
    pub old : Row
    pub start : S
    pub mask_read : Returns (masked_row bus row s) masked asked
    pub old_read : Returns (read_row_any bus row true false false asked) old start
    pub was_open : old.lock ≡ false
    pub programmed : S
    pub value_read :
        masked ≡ false → HasProgrammed row (bit_or word old.val) (bit_or word old.val) programmed
    pub lock_written : Returns (write_lock bus row lock programmed) tt t
    pub lock_read : lock ≡ true → HasReadLock row t

  written_on_open_row :
      (row word : ℕ) (lock m : Bool) (s s1 s2 : S) (r : Row) {t : S}
      → row < 44
      → word ≢ 0
      → Returns (masked_row bus row s) m s1
      → Returns (read_row_any bus row true false false s1) r s2
      → r.lock ≡ false
      → Returns ((do write_value bus row word m r.val; write_lock bus row lock) s2) tt t
      → HasWritten row word lock s t
  written_on_open_row row word lock m s s1 s2 r {t} low some_bit mask read unlocked h =
      let (u, s3, wrote, h1) = follow-ok (write_value bus row word m r.val s2) _ h in
      record {
        in_range = low;
        masked = m;
        asked = s1;
        old = r;
        start = s2;
        mask_read = mask;
        old_read = read;
        was_open = unlocked;
        programmed = s3;
        value_read = λ e.
            write_value-HasProgrammed row word r.val s2 some_bit
              (subst (λ b. Returns (write_value bus row word b r.val s2) tt s3) e wrote);
        lock_written = h1;
        lock_read = λ e.
            write_lock-HasReadLock row s3
              (subst (λ b. Returns (write_lock bus row b s3) tt t) e h1);
      }

  after_read :
      (row word : ℕ) (lock m : Bool) (s s1 s2 : S) (r : Row) {t : S}
      → row < 44
      → word ≢ 0
      → Returns (masked_row bus row s) m s1
      → Returns (read_row_any bus row true false false s1) r s2
      → Returns (write_after_read bus row word lock m r s2) tt t
      → HasWritten row word lock s t
  after_read row word lock m s s1 s2 r low some_bit mask read h =
      let refuse : Io S (Unit {0}) = if word == 0 then pure tt else fail Unit eacces in
      let write : Io S (Unit {0}) = (do
        write_value bus row word m r.val
        write_lock bus row lock) in
      elim (if-ok r.lock refuse write s2 h) [
        | inl (l, h3) ↦ elim (if-ok (word == 0) (pure tt) (fail Unit eacces) s2 h3) [
          | inl (z, h4) ↦ absurd (some_bit (==→eq word 0 z))
          | inr (z, h4) ↦ absurd (err-ne-ok eacces s2 h4)
        ]
        | inr (l, h3) ↦ written_on_open_row row word lock m s s1 s2 r low some_bit mask read l h3
      ]

  abbrev read_then : ℕ → ℕ → Bool → Bool → Io S (Unit {0})
  read_then row word lock m = do
    r ← read_row_any bus row true false false
    write_after_read bus row word lock m r

  -- A write of a value that is not 0 and that reports success: the row exists and its lock bit was
  -- read as not set; unless the row is masked, the fuses of the value joined with the old one were
  -- burned in it, and that value was then read back; and if locking was asked for, the last thing
  -- that happened is a read of the row that returned a set lock bit.
  pub efuse_write_row_no_ecc-HasWritten :
      (row word : ℕ) (lock : Bool) (s : S) {t : S}
      → word ≢ 0
      → Returns (efuse_write_row_no_ecc bus row word lock s) tt t
      → HasWritten row word lock s t
  unfolding efuse_write_row_no_ecc
  efuse_write_row_no_ecc-HasWritten row word lock s {t} some_bit h =
      elim (if-ok (ltb 43 row) (fail Unit einval) (write_existing bus row word lock) s h) [
        | inl (e, h0) ↦ absurd (err-ne-ok einval s h0)
        | inr (e, h0) ↦
            let (m, s1, mask, h1) = follow-ok (masked_row bus row s) (read_then row word lock) h0 in
            let (r, s2, read, h2) =
              follow-ok (read_row_any bus row true false false s1)
                (write_after_read bus row word lock m) h1 in
            after_read row word lock m s s1 s2 r (ground arith) some_bit mask read h2
      ]
