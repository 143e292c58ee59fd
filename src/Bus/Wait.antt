-- ===== src/Bus/Wait.antt =====
-- Code that may wait for a device for ever: `none` is fuel that ran out.
use mox_boot_builder.Prelude.{
  ℕ, zero, suc, Option, none, some, List, [], ◌∷◌, bit_and, bit_or, ◌==◌, if◌then◌else◌, ◌≡◌, refl,
  ap,
}
use mox_boot_builder.Bits.{not32}
use mox_boot_builder.Bus.{Bus, Result, ok, err, Io}

abbrev pub Wait : Type 0 → Type 0 → Type 0
Wait S A = S → Option (A × S)

infixl 5 ◌>>=◌ ◌>>◌
abbrev pub ◌>>=◌ : {S A B : Type 0} → Wait S A → (A → Wait S B) → Wait S B
◌>>=◌ m k s = elim (m s) [ none ↦ none | some x ↦ k x.0 x.1 ]

abbrev pub ◌>>◌ : {S B : Type 0} → Wait S (Unit {0}) → Wait S B → Wait S B
m >> k = m >>= λ _. k

abbrev pub give : {S A : Type 0} → A → Wait S A
give a s = some (a, s)

-- `if (res < 0) return res;` after a call
abbrev pub if_ok : {S A B : Type 0} → (A → Wait S (Result B)) → Result A → Wait S (Result B)
if_ok k (ok a) = k a
if_ok k (err e) = give (err e)

-- A call that does not wait.
abbrev pub run : {S A : Type 0} → Io S A → Wait S (Result A)
run m s = some (m s)

-- A chain that ends: its first step ended, and so did the rest.
pub follow-some :
    {S A B : Type 0} (m : Wait S A) (k : A → Wait S B) (s : S) {b : B} {t : S}
    → (m >>= k) s ≡ some (b, t)
    → (a : A) × (s1 : S) × (m s ≡ some (a, s1)) × (k a s1 ≡ some (b, t))
follow-some {S} {A} {B} m k s {b} {t} h = split (m s) refl h
  where
    split :
        (o : Option (A × S))
        → m s ≡ o
        → elim o [ none ↦ none | some x ↦ k x.0 x.1 ] ≡ some (b, t)
        → (a : A) × (s1 : S) × (m s ≡ some (a, s1)) × (k a s1 ≡ some (b, t))
    split none p e = cc
    split (some (a, s1)) p e = (a, s1, p, e)

-- A chain whose first step has ended.
pub after-some :
    {S A B : Type 0} (m : Wait S A) (k : A → Wait S B) (s : S) {a : A} {t : S}
    → m s ≡ some (a, t)
    → (m >>= k) s ≡ k a t
after-some m k s p = ap (λ o. elim o [ none ↦ none | some x ↦ k x.0 x.1 ]) p

module _ {S : Type 0} (bus : Bus S) where
  abbrev pub load : ℕ → Wait S ℕ
  load addr s = some (bus.read addr s)

  abbrev pub put : ℕ → ℕ → Wait S (Unit {0})
  put v addr s = some (tt, bus.write v addr s)

  abbrev pub sleep : ℕ → Wait S (Unit {0})
  sleep n s = some (tt, bus.pause n s)

  abbrev pub set_bits : ℕ → ℕ → ℕ → Wait S (Unit {0})
  set_bits addr v mask = do
    old ← load addr
    put (bit_or (bit_and old (not32 mask)) (bit_and v mask)) addr

  -- `while (!(val = readl(addr))) ndelay(100);`, with `n` rounds left.
  unfoldable pub poll_any : ℕ → ℕ → Wait S ℕ
  poll_any zero addr s = none
  poll_any (suc n) addr s =
      let (v, s1) = bus.read addr s in
      let again = poll_any n addr (bus.pause 100 s1) in if v == 0 then again else some (v, s1)

  -- `while (!(readl(addr) & mask)) ndelay(100);`
  unfoldable pub poll_bit : ℕ → ℕ → ℕ → Wait S (Unit {0})
  poll_bit zero addr mask s = none
  poll_bit (suc n) addr mask s =
      let (v, s1) = bus.read addr s in
      let again = poll_bit n addr mask (bus.pause 100 s1) in
      if bit_and v mask == 0 then again else some (tt, s1)

  -- A loop that writes words to places given by their number, from place `i` on.
  unfoldable pub put_words : (ℕ → ℕ) → ℕ → List ℕ → Wait S (Unit {0})
  put_words at i [] s = some (tt, s)
  put_words at i (w ∷ ws) s = (put w (at i) >> put_words at (suc i) ws) s

  unfoldable pub load_words : (ℕ → ℕ) → ℕ → ℕ → Wait S (List ℕ)
  load_words at i zero s = some ([], s)
  load_words at i (suc n) s = (do w ← load (at i); ws ← load_words at (suc i) n; give (w ∷ ws)) s
