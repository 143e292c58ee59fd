-- ===== src/Mbox/Status.antt =====
-- The status word of mbox.h: command in bits 0 to 9, value in bits 10 to 29, verdict in 30 and 31.
use mox_boot_builder.Prelude.{
  ℕ, ◌+◌, ◌*◌, ◌/◌, ◌%◌, ◌^◌, ◌<◌, ◌≡◌, ap, ap₂, arith, bit_and, bit_or, ◌==◌, if◌then◌else◌,
}
use mox_boot_builder.Bits.{◌<<◌, ◌>>>◌}
use mox_boot_builder.Bits.Fields.{and_mask, or_fields_swap}

-- The verdicts, already shifted.
abbrev pub success : ℕ
success = 0

abbrev pub failed : ℕ
failed = 1 * 2 ^ 30

abbrev pub badcmd : ℕ
badcmd = 2 * 2 ^ 30

abbrev pub later : ℕ
later = 3 * 2 ^ 30

-- errno.h
abbrev pub eio : ℕ
eio = 5

abbrev pub eacces : ℕ
eacces = 13

abbrev pub einval : ℕ
einval = 22

abbrev pub edom : ℕ
edom = 33

abbrev pub enosys : ℕ
enosys = 38

abbrev pub enodata : ℕ
enodata = 61

abbrev pub eopnotsupp : ℕ
eopnotsupp = 95

abbrev pub etimedout : ℕ
etimedout = 110

-- `MBOX_STS`
unfoldable pub sts : ℕ → ℕ → ℕ → ℕ
sts cmd val verdict = bit_or (bit_or (bit_and cmd 0x3ff) (bit_and val 0xfffff << 10)) verdict

-- `MBOX_STS_ERROR`: the top two bits, in place
unfoldable pub sts_error : ℕ → ℕ
sts_error s = bit_and s (3 * 2 ^ 30)

unfoldable pub sts_value : ℕ → ℕ
sts_value s = bit_and (s >>> 10) 0xfffff

unfoldable pub sts_cmd : ℕ → ℕ
sts_cmd s = bit_and s 0x3ff

-- `MBOX_STS_MARVELL`
unfoldable pub sts_marvell : ℕ → ℕ
sts_marvell e =
    if e == 0
    then 0
    else if e == etimedout
    then 2
    else if e == einval
    then 3
    else if e == enosys
    then 4
    else 1

low_part :
    (cmd val : ℕ)
    → bit_or (bit_and cmd 0x3ff) (bit_and val 0xfffff << 10) ≡ val % 2 ^ 20 * 2 ^ 10 + cmd % 2 ^ 10
low_part cmd val = omega (
  arith,
  and_mask 10 cmd,
  and_mask 20 val,
  ap₂ bit_or (and_mask 10 cmd) (ap (λ (t : ℕ). t * 2 ^ 10) (and_mask 20 val)),
  or_fields_swap 10 (val % 2 ^ 20) (cmd % 2 ^ 10) (omega arith),
)

-- The status word is the sum of its three fields.
pub sts_sum :
    (cmd val verdict : ℕ)
    → sts cmd val (verdict * 2 ^ 30) ≡ verdict * 2 ^ 30 + (val % 2 ^ 20 * 2 ^ 10 + cmd % 2 ^ 10)
unfolding sts
sts_sum cmd val verdict =
    rw (low_part cmd val)
      (or_fields_swap 30 verdict (val % 2 ^ 20 * 2 ^ 10 + cmd % 2 ^ 10) (omega arith))

-- Packing a status word and taking it apart again gives back the low 10 bits of the command, the
-- low 20 bits of the value, and the verdict, for each of the four verdicts.
pub sts_roundtrip :
    (cmd val verdict : ℕ)
    → verdict < 4
    → let s = sts cmd val (verdict * 2 ^ 30) in
      (sts_cmd s ≡ cmd % 2 ^ 10) × (sts_value s ≡ val % 2 ^ 20) × (s / 2 ^ 30 ≡ verdict)
unfolding sts_cmd sts_value
sts_roundtrip cmd val verdict h =
    let s = sts cmd val (verdict * 2 ^ 30) in
    omega (arith, sts_sum cmd val verdict, and_mask 10 s, and_mask 20 (s / 2 ^ 10))
