-- ===== src/Crypto/Tests.antt =====
-- Keys and signatures of crypto.c on devices for tests.
use mox_boot_builder.Prelude.{
  ℕ, zero, suc, ◌+◌, ◌-◌, ◌^◌, ◌<◌, ◌≡◌, refl, subst, ap, arith, Bool, true, false, Option, none,
  some, inl, List, [], leb, ◌==◌, if◌then◌else◌, get_or, replicate, length, length-replicate,
}
use mox_boot_builder.Bus.{Bus}
use mox_boot_builder.Bus.Sample.{fuses}
use mox_boot_builder.Bus.Wait.{poll_any, put_words, load_words}
use mox_boot_builder.Efuse.Write.{efuse_write_secure_buffer}
use mox_boot_builder.Bignum.{
  bn_from_u32, bn_cmp, cmp_below, bn_is_zero, add_words, sub_words, bn_modulo, bn_addmod,
}
use mox_boot_builder.Bignum.Value.{AllWords}
use mox_boot_builder.Crypto.{EcPoint, EcSig, curve_b}
use mox_boot_builder.Crypto.Engine.{
  bit_length, ecp_wait, ecp_init, ecp_secp521r1_init, ecp_finish, point_add, point_mul, zmodp_wait,
  zmodp_setup, zmodp_op,
}
use mox_boot_builder.Crypto.Ecdsa.{
  Random, ecdsa_valid_scalar, point_valid, ecdsa_verify, generate_private_key,
}
use mox_boot_builder.Crypto.InRange.{
  IsScalar, FillsWords, Comes, ecdsa_verify-InRange, generate_private_key-ends,
}

abbrev ones : List ℕ
ones = replicate 17 1

-- Engines that answer: the state counts the reads of the interrupt register of the points' engine
-- and of the output of the other. The second answer about points is an error, the outputs are 0,
-- except those of the third operation, which are the coefficient b, and points have coordinates 1.
abbrev engines : Bus (ℕ × ℕ)
engines = record {
  read = λ addr s.
      if addr == 0x4000140c
      then (if s.0 == 1 then 8 else 1, (s.0 + 1, s.1))
      else if addr == 0x40002320
      then (if leb 64 s.1 then get_or curve_b (s.1 - 64) 0 else 0, (s.0, s.1 + 1))
      else (1, s);
  write = λ v addr s. s;
  pause = λ n s. s;
}

abbrev source : {S : Type 0} → Random S
source = record { paranoid_rand = λ n s. some (replicate n 1, s) }

abbrev key : EcPoint
key = record { x = ones; y = ones }

abbrev signature : EcSig
signature = record { r = ones; s = ones }

accepted : ecdsa_verify engines source 2 key signature ones (0, 0) ≡ some (true, (8, 192))
unfolding ecdsa_verify point_valid zmodp_setup zmodp_op zmodp_wait point_mul point_add ecp_finish
    ecp_wait ecp_init ecp_secp521r1_init ecdsa_valid_scalar poll_any put_words load_words bit_length
    bn_from_u32 bn_cmp cmp_below bn_is_zero add_words sub_words bn_modulo bn_addmod
accepted = refl

ecdsa_verify-InRange_example : (get_or ones 16 0 < 2 ^ 9) × IsScalar ones × IsScalar ones
ecdsa_verify-InRange_example =
    ecdsa_verify-InRange engines source 2 key signature ones (0, 0) (omega arith) (omega arith) refl
      refl accepted

replicate-AllWords : (n : ℕ) → AllWords (replicate n 1)
replicate-AllWords zero = tt
replicate-AllWords (suc n) = (omega arith, replicate-AllWords n)

source-FillsWords : FillsWords (fuses 0) source 1
source-FillsWords n s ws t h =
    let first : Option (List ℕ × Bool) → List ℕ = λ o. elim o [ none ↦ [] | some x ↦ x.0 ] in
    subst (λ v. AllWords v × (length v ≡ n)) (ap first h)
      (replicate-AllWords n, length-replicate n 1)

ones-Comes : Comes (fuses 0) source 1 1 false
unfolding Comes
ones-Comes = (replicate 17 1, false, refl, inl (omega arith, omega arith))

generate_private_key-ends_example :
    (priv : List ℕ) × (s1 : Bool) × IsScalar priv
    × (generate_private_key (fuses 0) source 1 false
        ≡ some (efuse_write_secure_buffer (fuses 0) priv s1))
generate_private_key-ends_example =
    generate_private_key-ends (fuses 0) source 1 1 false (omega arith) source-FillsWords ones-Comes
