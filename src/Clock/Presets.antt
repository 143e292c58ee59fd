-- ===== src/Clock/Presets.antt =====
-- wtmi/clock.c: the four configurations of `clk_cfg_all`. A struct of selectors or dividers is the
-- list of its members, in their order.
use mox_boot_builder.Prelude.{ℕ, zero, suc, Option, none, some, List, [], ◌∷◌}

-- `struct tbg_cfg`
pub record TbgCfg : Type 0 where
  pub kvco_mhz : ℕ
  pub se_vcodiv : ℕ
  pub diff_vcodiv : ℕ

-- `struct nb_clock_cfg` and, with other members, `struct sb_clock_cfg`
pub record TreeCfg : Type 0 where
  pub clock_sel : List ℕ
  pub div0 : List ℕ
  pub div1 : List ℕ
  pub div2 : List ℕ

-- `struct clock_cfg`
pub record ClockCfg : Type 0 where
  pub cpu_freq_mhz : ℕ
  pub ddr_freq_mhz : ℕ
  pub tbg_a_cfg : TbgCfg
  pub tbg_b_cfg : TbgCfg
  pub nb_clk_cfg : TreeCfg
  pub sb_clk_cfg : TreeCfg

abbrev tbg : ℕ → ℕ → ℕ → TbgCfg
tbg kvco se diff = record { kvco_mhz = kvco; se_vcodiv = se; diff_vcodiv = diff }

abbrev pub entry0 : ClockCfg
entry0 = record {
  cpu_freq_mhz = 600;
  ddr_freq_mhz = 600;
  tbg_a_cfg = tbg 2400 1 1;
  tbg_b_cfg = tbg 2000 1 1;
  nb_clk_cfg = record {
    clock_sel = 2 ∷ 3 ∷ 3 ∷ 3 ∷ 0 ∷ 0 ∷ 0 ∷ 3 ∷ 3 ∷ 0 ∷ 3 ∷ 0 ∷ 3 ∷ [];
    div0 = 4 ∷ 5 ∷ 2 ∷ 4 ∷ 1 ∷ 2 ∷ 6 ∷ 2 ∷ [];
    div1 = 1 ∷ 5 ∷ 2 ∷ 5 ∷ 2 ∷ 3 ∷ 2 ∷ 2 ∷ 3 ∷ [];
    div2 = 4 ∷ 1 ∷ 5 ∷ 1 ∷ 3 ∷ 1 ∷ 2 ∷ 0 ∷ 0 ∷ 1 ∷ [];
  };
  sb_clk_cfg = record {
    clock_sel = 1 ∷ 3 ∷ 3 ∷ 2 ∷ 3 ∷ 3 ∷ 3 ∷ [];
    div0 = 1 ∷ 3 ∷ 2 ∷ 5 ∷ 2 ∷ 4 ∷ 1 ∷ 5 ∷ [];
    div1 = 2 ∷ 4 ∷ 0 ∷ 0 ∷ 0 ∷ 4 ∷ 1 ∷ [];
    div2 = 5 ∷ 4 ∷ [];
  };
}

abbrev pub entry1 : ClockCfg
entry1 = record {
  cpu_freq_mhz = 800;
  ddr_freq_mhz = 800;
  tbg_a_cfg = tbg 1600 0 1;
  tbg_b_cfg = tbg 2000 1 2;
  nb_clk_cfg = record {
    clock_sel = 2 ∷ 0 ∷ 3 ∷ 3 ∷ 0 ∷ 0 ∷ 0 ∷ 3 ∷ 3 ∷ 0 ∷ 0 ∷ 0 ∷ 3 ∷ [];
    div0 = 4 ∷ 5 ∷ 2 ∷ 4 ∷ 1 ∷ 1 ∷ 5 ∷ 1 ∷ [];
    div1 = 1 ∷ 5 ∷ 2 ∷ 5 ∷ 1 ∷ 4 ∷ 1 ∷ 1 ∷ 4 ∷ [];
    div2 = 4 ∷ 1 ∷ 4 ∷ 1 ∷ 4 ∷ 2 ∷ 1 ∷ 0 ∷ 0 ∷ 1 ∷ [];
  };
  sb_clk_cfg = record {
    clock_sel = 1 ∷ 3 ∷ 3 ∷ 2 ∷ 3 ∷ 3 ∷ 3 ∷ [];
    div0 = 1 ∷ 4 ∷ 2 ∷ 5 ∷ 2 ∷ 4 ∷ 2 ∷ 2 ∷ [];
    div1 = 2 ∷ 4 ∷ 0 ∷ 0 ∷ 0 ∷ 4 ∷ 1 ∷ [];
    div2 = 5 ∷ 2 ∷ [];
  };
}

abbrev pub entry2 : ClockCfg
entry2 = record {
  cpu_freq_mhz = 1000;
  ddr_freq_mhz = 800;
  tbg_a_cfg = tbg 1600 0 1;
  tbg_b_cfg = tbg 2000 1 2;
  nb_clk_cfg = record {
    clock_sel = 2 ∷ 0 ∷ 3 ∷ 3 ∷ 0 ∷ 3 ∷ 0 ∷ 3 ∷ 3 ∷ 3 ∷ 0 ∷ 3 ∷ 3 ∷ [];
    div0 = 4 ∷ 5 ∷ 2 ∷ 4 ∷ 1 ∷ 1 ∷ 5 ∷ 1 ∷ [];
    div1 = 1 ∷ 5 ∷ 2 ∷ 5 ∷ 1 ∷ 4 ∷ 1 ∷ 1 ∷ 4 ∷ [];
    div2 = 4 ∷ 1 ∷ 4 ∷ 1 ∷ 4 ∷ 2 ∷ 1 ∷ 0 ∷ 0 ∷ 1 ∷ [];
  };
  sb_clk_cfg = record {
    clock_sel = 1 ∷ 3 ∷ 3 ∷ 2 ∷ 3 ∷ 3 ∷ 3 ∷ [];
    div0 = 1 ∷ 4 ∷ 2 ∷ 5 ∷ 2 ∷ 4 ∷ 2 ∷ 2 ∷ [];
    div1 = 2 ∷ 4 ∷ 0 ∷ 0 ∷ 0 ∷ 4 ∷ 1 ∷ [];
    div2 = 5 ∷ 2 ∷ [];
  };
}

abbrev pub entry3 : ClockCfg
entry3 = record {
  cpu_freq_mhz = 1200;
  ddr_freq_mhz = 750;
  tbg_a_cfg = tbg 1500 0 1;
  tbg_b_cfg = tbg 2400 1 1;
  nb_clk_cfg = record {
    clock_sel = 3 ∷ 3 ∷ 3 ∷ 3 ∷ 3 ∷ 3 ∷ 3 ∷ 3 ∷ 2 ∷ 3 ∷ 0 ∷ 3 ∷ 2 ∷ [];
    div0 = 6 ∷ 4 ∷ 3 ∷ 4 ∷ 1 ∷ 1 ∷ 5 ∷ 1 ∷ [];
    div1 = 1 ∷ 6 ∷ 3 ∷ 4 ∷ 1 ∷ 6 ∷ 1 ∷ 1 ∷ 6 ∷ [];
    div2 = 4 ∷ 1 ∷ 6 ∷ 1 ∷ 3 ∷ 1 ∷ 3 ∷ 0 ∷ 0 ∷ 1 ∷ [];
  };
  sb_clk_cfg = record {
    clock_sel = 1 ∷ 2 ∷ 2 ∷ 3 ∷ 2 ∷ 2 ∷ 2 ∷ [];
    div0 = 1 ∷ 3 ∷ 3 ∷ 5 ∷ 3 ∷ 4 ∷ 2 ∷ 3 ∷ [];
    div1 = 3 ∷ 4 ∷ 0 ∷ 0 ∷ 0 ∷ 2 ∷ 3 ∷ [];
    div2 = 4 ∷ 6 ∷ [];
  };
}

-- `set_clock_preset`: what `clk_cfg` and `preset_flag` are then; none is -1.
unfoldable pub clock_preset : ℕ → Option ClockCfg
clock_preset zero = some entry0
clock_preset (suc zero) = some entry1
clock_preset (suc (suc zero)) = some entry2
clock_preset (suc (suc (suc zero))) = some entry3
clock_preset (suc (suc (suc (suc n)))) = none
