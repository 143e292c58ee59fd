-- ===== src/Crypto/Ecdsa.antt =====
-- Keys, signatures and their check (crypto.c), over the engines and a source of random words.
use mox_boot_builder.Prelude.{
  ℕ, zero, suc, ◌+◌, ◌-◌, ◌/◌, ◌%◌, ◌^◌, Bool, true, false, not, ◌&&◌, ◌||◌, Option, none, some,
  List, [], bit_and, bit_or, ltb, ◌==◌, if◌then◌else◌, get_or, set,
}
use mathlib.Core.List.{reverse}
use mox_boot_builder.Strings.{is_same}
use mox_boot_builder.Bus.{Bus, Result, ok, err}
use mox_boot_builder.Bus.Wait.{Wait, ◌>>=◌, ◌>>◌, give, if_ok, run}
use mox_boot_builder.Mbox.Status.{einval, enodata}
use mox_boot_builder.Efuse.Write.{efuse_write_secure_buffer}
use mox_boot_builder.Bignum.{bn_from_u32, bn_cmp, bn_is_zero, is_negative, bn_modulo, bn_addmod}
use mox_boot_builder.Crypto.{EcPoint, EcSig, curve_bits, prime, curve_a, curve_b, base, order}
use mox_boot_builder.Crypto.Engine.{
  Zmodp, mul, exp, inv, point_add, point_mul, point_mul_by_otp, ecp_clear_operands, zmodp_setup,
  zmodp_op,
}

-- What crypto.c uses of ebg.c: `paranoid_rand` of a number of words.
pub record Random (S : Type 0) : Type 0 where
  pub paranoid_rand : ℕ → Wait S (List ℕ)

-- A loop on numbers, which leaves the devices alone.
abbrev pub compute : {S A : Type 0} → Option A → Wait S A
compute o s = elim o [ none ↦ none | some a ↦ some (a, s) ]

-- `ecdsa_valid_scalar`
unfoldable pub ecdsa_valid_scalar : List ℕ → Bool
ecdsa_valid_scalar x = not (bn_is_zero x) && is_negative (bn_cmp x order.p)

-- `z[16] > 0x1ff`
abbrev pub is_long : List ℕ → Bool
is_long z = ltb 0x1ff (get_or z 16 0)

module _ {S : Type 0} (bus : Bus S) (random : Random S) (fuel : ℕ) where
  -- `bn_random`, with `n` rounds left.
  unfoldable pub bn_random : ℕ → List ℕ → ℕ → Wait S (List ℕ)
  bn_random zero max bits s = none
  bn_random (suc n) max bits s =
      (let longs = (bits + 31) / 32 in
          let again = bn_random n max bits in
          do
            ws ← random.paranoid_rand longs
            let top = bit_and (get_or ws (longs - 1) 0) (2 ^ (bits % 32) - 1)
            let dst = set ws (longs - 1) top
            if is_negative (bn_cmp dst max) then give dst else again)
        s

  -- `do bn_random(k, order, 521); while (bn_is_zero(k));`
  unfoldable pub random_scalar : ℕ → Wait S (List ℕ)
  unfolding bn_random
  random_scalar zero s = none
  random_scalar (suc n) s =
      (let again = random_scalar n in
          do k ← bn_random fuel order.p 521; if bn_is_zero k then again else give k)
        s

  -- `ecp_secp521r1_point_valid`
  unfoldable pub point_valid : EcPoint → Wait S (Result Bool)
  point_valid p = do
    z ← zmodp_setup bus fuel 521 prime
    cube ← zmodp_op bus fuel z exp p.x (bn_from_u32 3) false false false
    if_ok
        (λ r1. do
          scaled ← zmodp_op bus fuel z mul p.x curve_a false false false
          if_ok
              (λ t. do
                r2 ← compute (bn_addmod fuel r1 t prime.p)
                r ← compute (bn_addmod fuel r2 curve_b prime.p)
                square ← zmodp_op bus fuel z mul p.y p.y false false false
                if_ok (λ t2. give (ok (is_same (bn_cmp r t2)))) square)
              scaled)
        cube

  -- `ecdsa_generate_efuse_private_key`
  unfoldable pub generate_private_key : Wait S (Result (Unit {0}))
  unfolding random_scalar
  generate_private_key = do priv ← random_scalar fuel; run (efuse_write_secure_buffer bus priv)

  -- The inner loop of `ecdsa_sign`: `stale` is what the stack holds at `p` if the engine reports an
  -- error, which the code does not look at. The result is the random number and the first half of the signature.
  unfoldable pub sign_r : List ℕ → ℕ → Wait S (List ℕ × List ℕ)
  unfolding random_scalar
  sign_r stale zero s = none
  sign_r stale (suc n) s =
      (let again = sign_r stale n in
          do
            k ← random_scalar fuel
            p ← point_mul bus fuel true base k
            ecp_clear_operands bus fuel
            r ← compute (bn_modulo fuel (elim p [ ok q ↦ q.x | err e ↦ stale ]) order.p)
            if bn_is_zero r then again else give (k, r))
        s

  -- The outer loop of `ecdsa_sign`. A round that is followed by another has filled the secure buffer.
  unfoldable pub sign_loop : List ℕ → Zmodp → List ℕ → Bool → ℕ → Wait S (Result EcSig)
  unfolding sign_r
  sign_loop stale z hash sbfill zero s = none
  sign_loop stale z hash sbfill (suc n) s =
      (let again = sign_loop stale z hash true n in
          sign_r stale fuel >>= λ kr.
          zmodp_op bus fuel z mul [] kr.1 true false sbfill
          >>= if_ok (λ by_key.
            zmodp_op bus fuel z inv kr.0 [] false true sbfill
            >>= if_ok (λ k. compute (bn_addmod fuel by_key hash order.p) >>= λ sum.
                zmodp_op bus fuel z mul k sum false true sbfill
                >>= if_ok (λ last.
                  if bn_is_zero last then again else give (ok (record { r = kr.1; s = last }))))))
        s

  -- `ecdsa_sign`
  unfoldable pub ecdsa_sign : List ℕ → List ℕ → Bool → Wait S (Result EcSig)
  unfolding sign_loop
  ecdsa_sign stale hash sbfill =
      if is_long hash
      then give (err einval)
      else (zmodp_setup bus fuel curve_bits order >>= λ z. sign_loop stale z hash sbfill fuel)

  abbrev pub on_error : {A : Type 0} → Bool → (A → Wait S Bool) → Result A → Wait S Bool
  on_error b k (ok a) = k a
  on_error b k (err e) = give b

  -- The last steps of `ecdsa_verify`: two multiples of points, their sum, and the comparison.
  abbrev pub verify_points : EcPoint → EcSig → List ℕ → List ℕ → Zmodp → List ℕ → Wait S Bool
  verify_points key sig hash u z w =
      point_mul bus fuel true base u
      >>= on_error false (λ a.
        zmodp_op bus fuel z mul sig.r w false false false
        >>= on_error false (λ v.
          point_mul bus fuel true key v
          >>= on_error false (λ b.
            point_add bus fuel a b >>= on_error false (λ c. give (is_same (bn_cmp c.x sig.r))))))

  -- `ecdsa_verify` from the check of the scalars on.
  abbrev pub verify_scalars : EcPoint → EcSig → List ℕ → Wait S Bool
  verify_scalars key sig hash =
      if not (ecdsa_valid_scalar sig.r) || not (ecdsa_valid_scalar sig.s)
      then give false
      else (zmodp_setup bus fuel curve_bits order >>= λ z.
          zmodp_op bus fuel z inv sig.s [] false false false
          >>= on_error false (λ w.
            zmodp_op bus fuel z mul hash w false false false
            >>= on_error false (λ u. verify_points key sig hash u z w)))

  -- The multiple by the order must be the neutral element, which the engine reports as an error.
  abbrev pub verify_order : EcPoint → EcSig → List ℕ → Wait S Bool
  verify_order key sig hash = point_mul bus fuel false key order.p >>= λ p. elim p [
    | ok q ↦ give false
    | err e ↦ verify_scalars key sig hash
  ]

  abbrev pub verify_valid : EcPoint → EcSig → List ℕ → Result Bool → Wait S Bool
  verify_valid key sig hash (ok false) = give false
  verify_valid key sig hash (ok true) = verify_order key sig hash
  verify_valid key sig hash (err e) = verify_order key sig hash

  -- `ecdsa_verify`
  unfoldable pub ecdsa_verify : EcPoint → EcSig → List ℕ → Wait S Bool
  unfolding point_valid
  ecdsa_verify key sig hash =
      if is_long hash then give false else (point_valid key >>= verify_valid key sig hash)

  -- `ecdsa_get_efuse_public_key`: the words of the compressed key, the highest first.
  unfoldable pub get_public_key : Bool → Wait S (Result (List ℕ))
  get_public_key sbfill =
      point_mul_by_otp bus fuel sbfill base
      >>= if_ok (λ p.
        let words = reverse p.x in
        let sign = if bit_and (get_or p.y 0 0) 1 == 1 then 0x30000 else 0x20000 in
        if bn_is_zero p.x
        then give (err enodata)
        else give (ok (set words 0 (bit_or (get_or words 0 0) sign))))
