-- ===== src/Commands/ApRam.antt =====
-- wtmi/main.c: copies between the firmware and the RAM of the application processor.
use mox_boot_builder.Prelude.{
  ℕ, zero, suc, ◌+◌, Option, none, some, List, [], ◌∷◌, ◌++◌, take, drop, length, bit_and,
}
use mox_boot_builder.Bits.{◌<<◌}
use mox_boot_builder.Bus.{Bus, Result, ok, err}
use mox_boot_builder.Bus.Wait.{Wait, ◌>>=◌, ◌>>◌, give, put, set_bits}
use mox_boot_builder.Mbox.Status.{eio}
use mox_boot_builder.Commands.ApMem.{Event, remap, chunk, process_ap_mem}

-- The RAM behind the window, at the firmware's addresses: a parameter.
pub record ApRam (S : Type 0) : Type 0 where
  pub fetch : ℕ → S → ℕ × S
  pub keep : ℕ → ℕ → S → S

-- `CM3_WIN_CONROL` and `CM3_WIN_REMAP_LOW` of ddr.c
abbrev pub win_control : ℕ → ℕ
win_control win = 0xc000c700 + (win << 4)

abbrev pub win_remap_low : ℕ → ℕ
win_remap_low win = 0xc000c708 + (win << 4)

module _ {S : Type 0} (bus : Bus S) (ram : ApRam S) where
  unfoldable pub rwtm_win_remap : ℕ → ℕ → Wait S (Unit {0})
  rwtm_win_remap win remap_addr = do
    set_bits bus (win_control win) 0 1
    put bus (bit_and remap_addr 0xffff0000) (win_remap_low win)
    set_bits bus (win_control win) 1 1

  -- The callback on each part, with what it carries along.
  unfoldable pub run_events : {P : Type 0} → (ℕ → ℕ → P → Wait S P) → List Event → P → Wait S P
  run_events cb [] p = give p
  run_events cb (remap base ∷ es) p = rwtm_win_remap 0 base >> run_events cb es p
  run_events cb (chunk addr len ∷ es) p = cb addr len p >>= run_events cb es

  abbrev pub on_windows :
      {P : Type 0} → (ℕ → ℕ → P → Wait S P) → Option (Option (List Event)) → P → Wait S (Result P)
  on_windows cb none p = λ s. none
  on_windows cb (some none) p = give (err eio)
  on_windows cb (some (some es)) p = run_events cb es p >>= λ q. give (ok q)

  -- `process_ap_mem` with its callback; there are at most four windows, and a last round.
  unfoldable pub with_ap_mem : {P : Type 0} → (ℕ → ℕ → P → Wait S P) → ℕ → ℕ → P → Wait S (Result P)
  with_ap_mem cb addr len = on_windows cb (process_ap_mem 5 addr len)

  -- `memcpy` out of that RAM, and into it.
  unfoldable pub fetch_bytes : ℕ → ℕ → S → List ℕ × S
  fetch_bytes addr zero s = ([], s)
  fetch_bytes addr (suc n) s =
      let (b, s1) = ram.fetch addr s in let (bs, s2) = fetch_bytes (addr + 1) n s1 in (b ∷ bs, s2)

  unfoldable pub keep_bytes : ℕ → List ℕ → S → S
  keep_bytes addr [] s = s
  keep_bytes addr (b ∷ bs) s = keep_bytes (addr + 1) bs (ram.keep addr b s)

  -- `copy_from_ap_cb`, which carries the bytes that have been copied.
  unfoldable pub copy_from_ap_cb : ℕ → ℕ → List ℕ → Wait S (List ℕ)
  copy_from_ap_cb addr len dst s = let (bs, s1) = fetch_bytes addr len s in some (dst ++ bs, s1)

  unfoldable pub copy_from_ap : ℕ → ℕ → Wait S (Result (List ℕ))
  copy_from_ap src len = with_ap_mem copy_from_ap_cb src len []

  -- `copy_to_ap_cb`, which carries the bytes that are left.
  unfoldable pub copy_to_ap_cb : ℕ → ℕ → List ℕ → Wait S (List ℕ)
  copy_to_ap_cb addr len src s = some (drop len src, keep_bytes addr (take len src) s)

  unfoldable pub copy_to_ap : ℕ → List ℕ → Wait S (Result (List ℕ))
  copy_to_ap dst src = with_ap_mem copy_to_ap_cb dst (length src) src
