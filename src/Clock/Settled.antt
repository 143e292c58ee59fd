-- ===== src/Clock/Settled.antt =====
-- The clocks that clock.c sets, and those that it reads back.
use mox_boot_builder.Prelude.{
  ℕ, zero, suc, ◌+◌, ◌^◌, ◌<◌, ◌≡◌, refl, arith, Bool, true, false, Option, none, some, bit_or,
  ◌==◌, if◌then◌else◌,
}
use mox_boot_builder.Bus.{Bus}
use mox_boot_builder.Bus.Wait.{◌>>=◌}
use mox_boot_builder.Clock.{
  tbg_ctrl, tbg_n, tbg_freq, find_range, vco_range, vco_intpi, ssc_freq_div, ssc_range, get_ref_clk,
  wait_locked, program_tbg, set_tbg_clock, set_offset, set_ssc_clock, get_tbg_clk, divide_cm3,
  get_cm3_clk,
}
use mox_boot_builder.Clock.Presets.{clock_preset}
use mox_boot_builder.Clock.Tree.{or_fields, spread_a, north_bridge, south_bridge, setup_clock_tree}

-- Registers that keep what is written to them; the two generators report that they are locked.
abbrev pub registers : Bus (ℕ → ℕ)
registers = record {
  read = λ addr s. (if addr == tbg_ctrl 1 then bit_or (s addr) (2 ^ 15 + 2 ^ 31) else s addr, s);
  write = λ v addr s. (λ a. if a == addr then v else s a);
  pause = λ n s. s;
}

-- Registers that are 0, with the strap of a reference clock of 40 or of 25 MHz.
abbrev pub reset : Bool → ℕ → ℕ
reset forty a = if a == 0xc0013808 then (if forty then 2 ^ 9 else 0) else 0

-- A run of `setup_clock_tree` with a preset, and the clock of the secure processor behind it.
abbrev pub settled_clock : ℕ → Bool → Option ℕ
settled_clock idx forty =
    elim ((setup_clock_tree registers 1 (clock_preset idx) >>= λ done. get_cm3_clk registers)
      (reset forty)) [ none ↦ none | some x ↦ some x.0 ]

-- After each of the four presets has been set up, on registers that were 0, and with either of the
-- two reference clocks, get_cm3_clk gives 200 MHz, the frequency on which ndelay and udelay rely.
pub setup_clock_tree-cm3 : (idx : ℕ) (forty : Bool) → idx < 4 → settled_clock idx forty ≡ some 200
unfolding clock_preset setup_clock_tree set_tbg_clock get_ref_clk program_tbg wait_locked spread_a
    set_ssc_clock set_offset north_bridge south_bridge get_cm3_clk get_tbg_clk tbg_freq or_fields
    tbg_n divide_cm3 find_range ssc_freq_div ssc_range vco_intpi vco_range
setup_clock_tree-cm3 zero true h = refl
setup_clock_tree-cm3 zero false h = refl
setup_clock_tree-cm3 (suc zero) true h = refl
setup_clock_tree-cm3 (suc zero) false h = refl
setup_clock_tree-cm3 (suc (suc zero)) true h = refl
setup_clock_tree-cm3 (suc (suc zero)) false h = refl
setup_clock_tree-cm3 (suc (suc (suc zero))) true h = refl
setup_clock_tree-cm3 (suc (suc (suc zero))) false h = refl
setup_clock_tree-cm3 (suc (suc (suc (suc n)))) forty h = absurd (omega arith)
