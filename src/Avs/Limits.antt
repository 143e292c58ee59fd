-- ===== src/Avs/Limits.antt =====
-- The voltage limits that avs.c sets.
use mox_boot_builder.Prelude.{ℕ, ◌+◌, ◌*◌, ◌/◌, ◌%◌, ◌^◌, ◌-◌, ◌&&◌, ltb, leb, if◌then◌else◌}

-- The fuse of a speed in MHz: six bits for each, from 1200 MHz down in steps of 200.
abbrev pub fuse : ℕ → ℕ → ℕ
fuse speed otp1 = otp1 / 2 ^ ((1200 - speed) / 200 * 6) % 2 ^ 6

-- The voltage without a fuse.
abbrev pub default_vdd : ℕ → ℕ
default_vdd speed = 0x1f + (speed - 800) / 200 * 4

-- The voltage for a speed: the fuse's, counted from 0xd, if the chip has revision 2 or later, the
-- fuse is burned, and six bits are enough.
unfoldable pub voltage : ℕ → ℕ → ℕ → ℕ
voltage speed otp0 otp1 =
    if leb 2 (otp0 / 2 ^ 8 % 2 ^ 4) && (ltb 0 (fuse speed otp1) && leb (fuse speed otp1 + 0xd) 0x3f)
    then fuse speed otp1 + 0xd
    else default_vdd speed
