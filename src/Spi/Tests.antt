-- ===== src/Spi/Tests.antt =====
-- The SPI flash at concrete inputs.
use mox_boot_builder.Prelude.{◌≡◌, refl, [], ◌∷◌}
use mox_boot_builder.Spi.{read_op}

env_op : read_op 0x180004 ≡ 0x0b ∷ 0x18 ∷ 0 ∷ 4 ∷ 0xff ∷ []
env_op = refl
