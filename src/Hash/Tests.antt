-- ===== src/Hash/Tests.antt =====
-- The hash engine at concrete inputs.
use mox_boot_builder.Prelude.{[], ◌∷◌, ◌≡◌, refl}
use mox_boot_builder.Strings.{strcmp}
use mox_boot_builder.Hash.{hash_id, sha1}

sha1_name : hash_id (b's' ∷ b'h' ∷ b'a' ∷ b'1' ∷ []) ≡ sha1
unfolding hash_id strcmp
sha1_name = refl
