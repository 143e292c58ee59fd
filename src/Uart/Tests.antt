-- ===== src/Uart/Tests.antt =====
-- A serial port at a concrete input.
use mox_boot_builder.Prelude.{ℕ, ◌^◌, ◌≡◌, refl, some, List, [], ◌∷◌, ◌++◌, ◌==◌, if◌then◌else◌}
use mox_boot_builder.Bus.{Bus}
use mox_boot_builder.Uart.{uart1_info, fputs}
use mox_boot_builder.Uart.Text.{IsReady, with_returns, fputs-with_returns}

-- The devices are what the port has sent.
abbrev port : Bus (List ℕ)
port = record {
  read = λ addr s. (2 ^ 6, s);
  write = λ v addr s. if addr == uart1_info.tx then s ++ v ∷ [] else s;
  pause = λ n s. s;
}

port-IsReady : IsReady port uart1_info (λ s. s)
port-IsReady = record {
  not_full = λ s. refl;
  empty = λ s. refl;
  keeps = λ s. refl;
  sends = λ c s. refl;
}

abbrev greeting : List ℕ
greeting = b'h' ∷ b'i' ∷ 10 ∷ []

fputs-with_returns_example :
    (t : List ℕ) × (fputs port uart1_info 1 greeting [] ≡ some (tt, t))
    × (t ≡ [] ++ with_returns greeting)
fputs-with_returns_example = fputs-with_returns port uart1_info (λ s. s) port-IsReady 0 greeting []
