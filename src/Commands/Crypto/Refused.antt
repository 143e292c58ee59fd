-- ===== src/Commands/Crypto/Refused.antt =====
-- The addresses that `cmd_sign` of main.c does not accept.
use mox_boot_builder.Prelude.{ℕ, ◌+◌, ◌*◌, ◌%◌, ◌^◌, ◌<◌, ◌≢◌, ◌⊎◌}
use mox_boot_builder.Bus.{Bus}
use mox_boot_builder.Commands.ApRam.{ApRam}

-- A place for 68 bytes that is not at a multiple of 4, or whose last byte is further behind the RAM
-- than the first byte behind it.
abbrev pub IsOutside : ℕ → ℕ → Type 0
IsOutside ram_size addr = (addr % 4 ≢ 0) ⊎ (ram_size * 2 ^ 20 + 1 < addr + 68)
