-- ===== src/Crypto.antt =====
-- wtmi/crypto.c: ECDSA on the curve secp521r1. The two engines are devices on the bus.
pub mod Engine
pub mod Ecdsa
pub mod InRange
mod Tests
use mox_boot_builder.Prelude.{ℕ, List, [], ◌∷◌}

-- `ec_point_t`, `ec_sig_t`, `prime_t`: arrays of seventeen words.
pub record EcPoint : Type 0 where
  pub x : List ℕ
  pub y : List ℕ

pub record EcSig : Type 0 where
  pub r : List ℕ
  pub s : List ℕ

pub record Prime : Type 0 where
  pub p : List ℕ
  pub r : List ℕ

-- `secp521r1`
abbrev pub curve_bits : ℕ
curve_bits = 521

abbrev pub prime : Prime
prime = record {
  p =
      0xffffffff ∷ 0xffffffff ∷ 0xffffffff ∷ 0xffffffff ∷ 0xffffffff ∷ 0xffffffff ∷ 0xffffffff
      ∷ 0xffffffff ∷ 0xffffffff ∷ 0xffffffff ∷ 0xffffffff ∷ 0xffffffff ∷ 0xffffffff ∷ 0xffffffff
      ∷ 0xffffffff ∷ 0xffffffff ∷ 0x000001ff ∷ [];
  r = 0 ∷ 0x4000 ∷ 0 ∷ 0 ∷ 0 ∷ 0 ∷ 0 ∷ 0 ∷ 0 ∷ 0 ∷ 0 ∷ 0 ∷ 0 ∷ 0 ∷ 0 ∷ 0 ∷ 0 ∷ [];
}

abbrev pub curve_a : List ℕ
curve_a =
    0xfffffffc ∷ 0xffffffff ∷ 0xffffffff ∷ 0xffffffff ∷ 0xffffffff ∷ 0xffffffff ∷ 0xffffffff
    ∷ 0xffffffff ∷ 0xffffffff ∷ 0xffffffff ∷ 0xffffffff ∷ 0xffffffff ∷ 0xffffffff ∷ 0xffffffff
    ∷ 0xffffffff ∷ 0xffffffff ∷ 0x000001ff ∷ []

abbrev pub curve_b : List ℕ
curve_b =
    0x6b503f00 ∷ 0xef451fd4 ∷ 0x3d2c34f1 ∷ 0x3573df88 ∷ 0x3bb1bf07 ∷ 0x1652c0bd ∷ 0xec7e937b
    ∷ 0x56193951 ∷ 0x8ef109e1 ∷ 0xb8b48991 ∷ 0x99b315f3 ∷ 0xa2da725b ∷ 0xb68540ee ∷ 0x929a21a0
    ∷ 0x8e1c9a1f ∷ 0x953eb961 ∷ 0x00000051 ∷ []

abbrev pub base : EcPoint
base = record {
  x =
      0xc2e5bd66 ∷ 0xf97e7e31 ∷ 0x856a429b ∷ 0x3348b3c1 ∷ 0xa2ffa8de ∷ 0xfe1dc127 ∷ 0xefe75928
      ∷ 0xa14b5e77 ∷ 0x6b4d3dba ∷ 0xf828af60 ∷ 0x053fb521 ∷ 0x9c648139 ∷ 0x2395b442 ∷ 0x9e3ecb66
      ∷ 0x0404e9cd ∷ 0x858e06b7 ∷ 0x000000c6 ∷ [];
  y =
      0x9fd16650 ∷ 0x88be9476 ∷ 0xa272c240 ∷ 0x353c7086 ∷ 0x3fad0761 ∷ 0xc550b901 ∷ 0x5ef42640
      ∷ 0x97ee7299 ∷ 0x273e662c ∷ 0x17afbd17 ∷ 0x579b4468 ∷ 0x98f54449 ∷ 0x2c7d1bd9 ∷ 0x5c8a5fb4
      ∷ 0x9a3bc004 ∷ 0x39296a78 ∷ 0x00000118 ∷ [];
}

abbrev pub order : Prime
order = record {
  p =
      0x91386409 ∷ 0xbb6fb71e ∷ 0x899c47ae ∷ 0x3bb5c9b8 ∷ 0xf709a5d0 ∷ 0x7fcc0148 ∷ 0xbf2f966b
      ∷ 0x51868783 ∷ 0xfffffffa ∷ 0xffffffff ∷ 0xffffffff ∷ 0xffffffff ∷ 0xffffffff ∷ 0xffffffff
      ∷ 0xffffffff ∷ 0xffffffff ∷ 0x000001ff ∷ [];
  r =
      0x61c64ca7 ∷ 0x1163115a ∷ 0x4374a642 ∷ 0x18354a56 ∷ 0x0791d9dc ∷ 0x5d4dd6d3 ∷ 0xd3402705
      ∷ 0x4fb35b72 ∷ 0xb7756e3a ∷ 0xcff3d142 ∷ 0xa8e567bc ∷ 0x5bcc6d61 ∷ 0x492d0d45 ∷ 0x2d8e03d1
      ∷ 0x8c44383d ∷ 0x5b5a3afe ∷ 0x0000019a ∷ [];
}
