-- ===== src/Clock/Tests.antt =====
-- Clocks at concrete inputs.
use mox_boot_builder.Prelude.{◌+◌, ◌*◌, ◌^◌, ◌≤◌, ◌<◌, ◌≡◌, arith, true, false, some}
use mox_boot_builder.Clock.{tbg_n, tbg_freq}
use mox_boot_builder.Clock.Settled.{settled_clock, setup_clock_tree-cm3}
use mox_boot_builder.Clock.Frequency.{tbg_freq-tbg_n}

setup_clock_tree-cm3_example : settled_clock 2 false ≡ some 200
setup_clock_tree-cm3_example = setup_clock_tree-cm3 2 false (omega arith)

-- TBG-A of the last preset with a clock of 40 MHz, where N is rounded.
tbg_freq-tbg_n_example :
    let f = tbg_freq (tbg_n 1500 4 40) 4 40 1 in
    (f * (4 * 2 ^ 1) ≤ 1500 * 4) × (1500 * 4 < (f + 1) * (4 * 2 ^ 1) + 4 * 40)
tbg_freq-tbg_n_example = tbg_freq-tbg_n true 1500 1 (omega arith) (omega arith)
