-- ===== src/Bus.antt =====
-- io.h: memory-mapped registers (`readl`, `writel`, `setbitsl`), over the hardware as a parameter.
-- `S` is the state of the devices. Nothing is assumed of a device here: reading may change it.
pub mod Sample
pub mod Wait
use mox_boot_builder.Prelude.{ℕ, bit_and, bit_or, ◌≡◌, refl, ap}
use mox_boot_builder.Prelude.{Bool, true, false, if◌then◌else◌, ◌⊎◌, inl, inr}
use mox_boot_builder.Bits.{not32}

pub record Bus (S : Type 0) : Type 0 where
  pub read : ℕ → S → ℕ × S
  pub write : ℕ → ℕ → S → S
  -- time passes: `ndelay` and `udelay`, in nanoseconds
  pub pause : ℕ → S → S

-- `-errno` as a value; `ok` is a return code that is not negative.
pub data Result (A : Type 0) : Type 0 where
  ok : A → Result A
  err : ℕ → Result A

-- A function of the firmware: it acts on the devices and returns a result.
abbrev pub Io : Type 0 → Type 0 → Type 0
Io S A = S → Result A × S

-- `if (res < 0) return res;` after a call
abbrev pub follow : {S A B : Type 0} → Result A × S → (A → Io S B) → Result B × S
follow (ok a, s) k = k a s
follow (err e, s) k = (err e, s)

infixl 5 ◌>>=◌ ◌>>◌
abbrev pub ◌>>=◌ : {S A B : Type 0} → Io S A → (A → Io S B) → Io S B
◌>>=◌ m k s = follow (m s) k

abbrev pub ◌>>◌ : {S B : Type 0} → Io S (Unit {0}) → Io S B → Io S B
m >> k = m >>= λ _. k

abbrev pub pure : {S A : Type 0} → A → Io S A
pure a s = (ok a, s)

abbrev pub fail : {S : Type 0} (A : Type 0) → ℕ → Io S A
fail A e s = (err e, s)

module _ {S : Type 0} (bus : Bus S) where
  abbrev pub readl : ℕ → Io S ℕ
  readl addr s = let (v, s') = bus.read addr s in (ok v, s')

  abbrev pub writel : ℕ → ℕ → Io S (Unit {0})
  writel v addr s = (ok tt, bus.write v addr s)

  abbrev pub ndelay : ℕ → Io S (Unit {0})
  ndelay n s = (ok tt, bus.pause n s)

  abbrev pub udelay : ℕ → Io S (Unit {0})
  udelay n s = (ok tt, bus.pause n s)

  abbrev pub setbitsl : ℕ → ℕ → ℕ → Io S (Unit {0})
  setbitsl addr v mask = do
    old ← readl addr
    writel (bit_or (bit_and old (not32 mask)) (bit_and v mask)) addr

-- The call returned `a`, no error, and left the state `s`.
abbrev pub Returns : {S A : Type 0} → Result A × S → A → S → Type 0
Returns x a s = x ≡ (ok a, s)

pub err-ne-ok : {S A : Type 0} (e : ℕ) {a : A} (s : S) {t : S} → Returns (err e, s) a t → ⊥
err-ne-ok e {a} s h = let p : err e ≡ ok a = ap (λ x. x.0) h in cc

pub ok-injective :
    {S A : Type 0} (a : A) {b : A} (s : S) {t : S} → Returns (ok a, s) b t → (a ≡ b) × (s ≡ t)
ok-injective a {b} s h = let p : ok a ≡ ok b = ap (λ x. x.0) h in (cc, ap (λ x. x.1) h)

-- A chain that succeeds: its first step succeeded, and so did the rest.
pub follow-ok :
    {S A B : Type 0} (x : Result A × S) (k : A → Io S B) {b : B} {t : S}
    → Returns (follow x k) b t
    → (a : A) × (s : S) × Returns x a s × Returns (k a s) b t
follow-ok (ok a, s) k h = (a, s, refl, h)
follow-ok (err e, s) k h = absurd (err-ne-ok e s h)

-- A branch that succeeds: one of its sides did.
pub if-ok :
    {S A : Type 0} (b : Bool) (m k : Io S A) (s : S) {a : A} {t : S}
    → Returns ((if b then m else k) s) a t
    → ((b ≡ true) × Returns (m s) a t) ⊎ ((b ≡ false) × Returns (k s) a t)
if-ok true m k s h = inl (refl, h)
if-ok false m k s h = inr (refl, h)
