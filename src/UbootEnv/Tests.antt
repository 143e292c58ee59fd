-- ===== src/UbootEnv/Tests.antt =====
-- The environment of U-Boot at a concrete flash.
use mox_boot_builder.Prelude.{ℕ, ◌≡◌, refl, arith, false, Option, none, some, List, [], ◌∷◌, take}
use mox_boot_builder.Strings.{memchr, strcmp}
use mox_boot_builder.UbootEnv.{Flash, env_loop, find_nul, find_one_env, vars_loop}
use mox_boot_builder.UbootEnv.Ends.{env_loop-ends}

-- `a=1`, `bad` and `b=2`
abbrev env : List ℕ
env = b'a' ∷ b'=' ∷ b'1' ∷ 0 ∷ b'b' ∷ b'a' ∷ b'd' ∷ 0 ∷ b'b' ∷ b'=' ∷ b'2' ∷ 0 ∷ 0 ∷ []

abbrev flash : Flash
flash addr len = take len env

found : env_loop (find_one_env (b'b' ∷ [])) 2 flash 4 false 0 none ≡ some (1, some (b'2' ∷ []))
unfolding env_loop vars_loop find_nul memchr find_one_env strcmp
found = refl

env_loop-ends_example :
    (r : ℕ × Option (List ℕ)) × (env_loop (find_one_env (b'b' ∷ [])) 0x10000 flash 4 false 0 none
      ≡ some r)
env_loop-ends_example =
    env_loop-ends (find_one_env (b'b' ∷ [])) 0x10000 flash 4 false 0 none (omega arith)
      (omega arith)
