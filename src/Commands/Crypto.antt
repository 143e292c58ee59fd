-- ===== src/Commands/Crypto.antt =====
-- wtmi/main.c: the commands that give random numbers, hash and sign.
pub mod Reverse
pub mod Refused
use mox_boot_builder.Prelude.{
  ℕ, zero, suc, ◌+◌, ◌-◌, ◌/◌, Bool, true, false, not, ◌||◌, Option, none, some, List, [], ◌∷◌,
  ◌++◌, drop, length, ◌==◌, ◌!=◌, if◌then◌else◌, get_or, set,
}
use mox_boot_builder.Strings.{store}
use mox_boot_builder.Bus.{Bus, Result, ok, err}
use mox_boot_builder.Bus.Wait.{Wait, ◌>>=◌, give}
use mox_boot_builder.Mbox.Status.{sts, success, failed, einval, eopnotsupp}
use mox_boot_builder.Hash.{HashId, na, md5, sha1, sha224, sha256, sha384, sha512, hw_hash}
use mox_boot_builder.Entropy.{Cbuf, ebg_rand}
use mox_boot_builder.Entropy.Mixed.{Ebg, words_of, bytes_of, paranoid_rand}
use mox_boot_builder.Crypto.{EcSig}
use mox_boot_builder.Crypto.Ecdsa.{Random, ecdsa_sign, get_public_key}
use mox_boot_builder.Commands.{arg}
use mox_boot_builder.Commands.ApMem.{ap_ram, check_ap_addr}
use mox_boot_builder.Commands.ApRam.{ApRam, with_ap_mem, keep_bytes, copy_from_ap, copy_to_ap}

-- The loop of `array_reverse_u32`, with `n` rounds left.
unfoldable pub reverse_loop : ℕ → ℕ → ℕ → List ℕ → List ℕ
reverse_loop zero i j x = x
reverse_loop (suc n) i j x =
    reverse_loop n (i + 1) (j - 1) (set (set x i (get_or x j 0)) j (get_or x i 0))

unfoldable pub array_reverse_u32 : List ℕ → ℕ → List ℕ
array_reverse_u32 x len = reverse_loop (len / 2) 0 (len - 1) x

-- The status and the output words.
abbrev pub Answer : Type 0
Answer = ℕ × List ℕ

-- The algorithm of `cmd_hash`.
unfoldable pub hash_of_arg : ℕ → HashId
hash_of_arg a =
    if a == 1
    then md5
    else if a == 2
    then sha1
    else if a == 3
    then sha224
    else if a == 4
    then sha256
    else if a == 5
    then sha384
    else if a == 6
    then sha512
    else na

abbrev pub is_na : HashId → Bool
is_na na = true
is_na h = false

module _ {S : Type 0} (bus : Bus S) (ram : ApRam S) (random : Random S) (fuel : ℕ)
    (ram_size : ℕ) where
  -- `if (res < 0) return MBOX_STS(0, -res, FAIL);`
  abbrev pub if_done : {A : Type 0} → List ℕ → (A → Wait S Answer) → Result A → Wait S Answer
  if_done out k (ok a) = k a
  if_done out k (err e) = give (sts 0 e failed, out)

  abbrev pub store_r_s : List ℕ → List ℕ → EcSig → Wait S Answer
  store_r_s args out sig =
      copy_to_ap bus ram (arg args 2) (bytes_of (array_reverse_u32 sig.r 17))
      >>= if_done out (λ _.
        copy_to_ap bus ram (arg args 3) (bytes_of (array_reverse_u32 sig.s 17))
        >>= if_done out (λ _. give (sts 0 0 success, out)))

  -- `stale` is what the stack of `ecdsa_sign` holds before.
  abbrev pub sign_message : List ℕ → Bool → List ℕ → List ℕ → List ℕ → Wait S Answer
  sign_message stale sbfill args out bytes =
      ecdsa_sign bus random fuel stale (array_reverse_u32 (words_of bytes) 17) sbfill
      >>= if_done out (store_r_s args out)

  -- The tests on the addresses of `cmd_sign`.
  unfoldable pub bad_sign_addrs : List ℕ → Bool
  bad_sign_addrs args =
      not (check_ap_addr ram_size (arg args 1) 68 4)
      || not (check_ap_addr ram_size (arg args 2) 68 4)
      || not (check_ap_addr ram_size (arg args 3) 68 4)

  unfoldable pub cmd_sign : List ℕ → Bool → List ℕ → List ℕ → Wait S Answer
  cmd_sign stale sbfill args out =
      if arg args 0 != 1
      then give (sts 0 eopnotsupp failed, out)
      else if bad_sign_addrs args
      then give (sts 0 einval failed, out)
      else (copy_from_ap bus ram (arg args 1) 68
          >>= if_done out (sign_message stale sbfill args out))

  -- `cmd_hash`, which main leaves unregistered.
  unfoldable pub cmd_hash : List ℕ → List ℕ → Wait S Answer
  cmd_hash args out =
      let alg = hash_of_arg (arg args 0) in
      if is_na alg
      then give (sts 0 eopnotsupp failed, out)
      else if not (check_ap_addr ram_size (arg args 1) (arg args 2) 4)
      then give (sts 0 einval failed, out)
      else (hw_hash bus fuel alg (ap_ram (arg args 1)) (arg args 2) >>= λ digest. elim digest [
        | none ↦ give (sts 0 0 success, out)
        | some words ↦ give (sts 0 0 success, store words 0 out)
      ])

  -- `cmd_ecdsa_pub_key`; the first argument and the last result are its static variables.
  unfoldable pub cmd_ecdsa_pub_key :
      Option (List ℕ) → Bool → List ℕ → Wait S (Answer × Option (List ℕ))
  cmd_ecdsa_pub_key (some key) sbfill out =
      give ((sts 0 (get_or key 0 0) success, store (drop 1 key) 0 out), some key)
  cmd_ecdsa_pub_key none sbfill out = get_public_key bus random fuel sbfill >>= λ r. elim r [
    | ok key ↦ give ((sts 0 (get_or key 0 0) success, store (drop 1 key) 0 out), some key)
    | err e ↦ give ((sts 0 e failed, out), none)
  ]

  -- `cmd_verify`
  unfoldable pub cmd_verify : List ℕ → Wait S Answer
  cmd_verify out = give (sts 0 eopnotsupp success, out)

module _ {S : Type 0} (bus : Bus S) (ram : ApRam S) (hw_sha512 : List ℕ → Wait S (List ℕ))
    (fuel reg buf_addr ram_size : ℕ) where
  -- `paranoid_rand_ap_cb`
  unfoldable pub paranoid_rand_ap_cb : ℕ → ℕ → Ebg → Wait S Ebg
  paranoid_rand_ap_cb addr len e = paranoid_rand bus hw_sha512 fuel reg buf_addr len e >>= λ x s.
      some (x.1, keep_bytes bus ram addr x.0 s)

  -- `cmd_get_random`; the value is the number of bytes in the output words, or 0xfffff.
  unfoldable pub cmd_get_random : List ℕ → List ℕ → Ebg → Wait S (Answer × Ebg)
  cmd_get_random args out e =
      if arg args 0 == 1
      then (if check_ap_addr ram_size (arg args 1) (arg args 2) 4
          then (with_ap_mem bus ram paranoid_rand_ap_cb (arg args 1) (arg args 2) e >>= λ r.
              elim r [
                | ok e1 ↦ give ((sts 0 0xfffff success, out), e1)
                | err n ↦ give ((sts 0 n failed, out), e)
              ])
          else give ((sts 0 einval failed, out), e))
      else (let (bytes, cbuf) = ebg_rand 64 e.ebg_cbuf in
          let words = words_of (store bytes 0 (bytes_of out)) in
          give ((sts 0 (length bytes) success, words), record e { ebg_cbuf = cbuf }))
