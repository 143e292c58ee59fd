-- ===== src/Clock/Tree.antt =====
-- wtmi/clock.c: `setup_clock_tree`.
use mox_boot_builder.Prelude.{
  ℕ, ◌+◌, ◌^◌, Bool, true, false, ◌||◌, Option, none, some, List, [], ◌∷◌, bit_and, bit_or, ◌==◌,
  get_or, if◌then◌else◌,
}
use mox_boot_builder.Bits.{◌<<◌}
use mox_boot_builder.Bus.{Bus}
use mox_boot_builder.Bus.Wait.{Wait, ◌>>=◌, ◌>>◌, give, load, put}
use mox_boot_builder.Clock.{ClockSrc, tbg_a, tbg_b, tbg_ctrl, and_out, set_tbg_clock, set_ssc_clock}
use mox_boot_builder.Clock.Presets.{TbgCfg, ClockCfg}

-- The masks and places of the members of the structs; cpu_cnt_clk_div_sel is not written.
abbrev pub nb_sel_fields : List (ℕ × ℕ)
nb_sel_fields =
    (3, 0)
    ∷ (3, 2)
    ∷ (3, 4)
    ∷ (3, 6)
    ∷ (3, 8)
    ∷ (3, 10)
    ∷ (3, 12)
    ∷ (3, 14)
    ∷ (3, 16)
    ∷ (3, 18)
    ∷ (3, 20)
    ∷ (3, 22)
    ∷ (3, 24)
    ∷ []

abbrev pub nb_div0_fields : List (ℕ × ℕ)
nb_div0_fields = (7, 0) ∷ (7, 3) ∷ (7, 12) ∷ (7, 15) ∷ (1, 18) ∷ (7, 20) ∷ (7, 23) ∷ (7, 28) ∷ []

abbrev pub nb_div1_fields : List (ℕ × ℕ)
nb_div1_fields =
    (7, 0) ∷ (7, 3) ∷ (7, 6) ∷ (7, 9) ∷ (7, 12) ∷ (7, 15) ∷ (7, 18) ∷ (7, 24) ∷ (7, 27) ∷ []

abbrev pub nb_div2_fields : List (ℕ × ℕ)
nb_div2_fields =
    (7, 0)
    ∷ (7, 7)
    ∷ (7, 10)
    ∷ (7, 13)
    ∷ (7, 16)
    ∷ (7, 19)
    ∷ (7, 22)
    ∷ (3, 25)
    ∷ (0, 27)
    ∷ (3, 29)
    ∷ []

abbrev pub sb_sel_fields : List (ℕ × ℕ)
sb_sel_fields = (3, 6) ∷ (3, 8) ∷ (3, 10) ∷ (3, 14) ∷ (3, 16) ∷ (3, 18) ∷ (3, 20) ∷ []

abbrev pub sb_div0_fields : List (ℕ × ℕ)
sb_div0_fields = (7, 3) ∷ (7, 6) ∷ (7, 9) ∷ (7, 12) ∷ (7, 15) ∷ (7, 18) ∷ (7, 21) ∷ (7, 24) ∷ []

abbrev pub sb_div1_fields : List (ℕ × ℕ)
sb_div1_fields = (7, 6) ∷ (7, 9) ∷ (1, 12) ∷ (1, 13) ∷ (1, 14) ∷ (7, 18) ∷ (7, 21) ∷ []

abbrev pub sb_div2_fields : List (ℕ × ℕ)
sb_div2_fields = (7, 6) ∷ (7, 9) ∷ []

-- `reg_val |= (member & mask) << place;` for each member
unfoldable pub or_fields : List (ℕ × ℕ) → List ℕ → ℕ → ℕ
or_fields ((mask, place) ∷ fields) (v ∷ vs) r =
    or_fields fields vs (bit_or r (bit_and v mask << place))
or_fields fields vs r = r

-- `CLOCK_SOURCE_FROM_TBG_A`
abbrev pub from_tbg_a : ℕ → Bool
from_tbg_a line = line == 0 || line == 2

module _ {S : Type 0} (bus : Bus S) (fuel : ℕ) where
  -- A register of which `mask` is kept.
  abbrev pub put_fields : ℕ → ℕ → List (ℕ × ℕ) → List ℕ → Wait S (Unit {0})
  put_fields addr mask fields vs = do
    r ← load bus addr
    put bus (or_fields fields vs (bit_and r mask)) addr

  abbrev pub set_tbg : TbgCfg → ClockSrc → Wait S (Unit {0})
  set_tbg cfg src = set_tbg_clock bus fuel cfg.kvco_mhz cfg.se_vcodiv cfg.diff_vcodiv src

  -- The spread spectrum of TBG-A, unless a clock of the network comes from there.
  unfoldable pub spread_a : ClockCfg → Wait S Bool
  spread_a cfg =
      let sel = λ (i : ℕ). from_tbg_a (get_or cfg.sb_clk_cfg.clock_sel i 0) in
      if sel 2 || sel 0 || sel 1
      then give true
      else set_ssc_clock bus cfg.ddr_freq_mhz cfg.tbg_a_cfg.kvco_mhz cfg.tbg_a_cfg.se_vcodiv tbg_a
          (record { down = true; mod_freq = 32500; amp_freq = 14000000; offset = 0; up = false })

  -- The dividers and selectors of the two bridges.
  unfoldable pub north_bridge : ClockCfg → Wait S (Unit {0})
  north_bridge cfg = do
    put bus 0 0xc0013014
    put_fields 0xc0013004 (2 ^ 31 + (3 << 26) + 2 ^ 19 + (0x3f << 6)) nb_div0_fields
        cfg.nb_clk_cfg.div0
    put_fields 0xc0013008 ((3 << 30) + (7 << 21)) nb_div1_fields cfg.nb_clk_cfg.div1
    put_fields 0xc001300c (2 ^ 31 + (0xf << 3)) nb_div2_fields cfg.nb_clk_cfg.div2
    put_fields 0xc0013000 (0x3f << 26) nb_sel_fields cfg.nb_clk_cfg.clock_sel

  unfoldable pub south_bridge : ClockCfg → Wait S (Unit {0})
  south_bridge cfg = do
    put bus (2 ^ 19 + 2 ^ 20) 0xc0018014
    put_fields 0xc0018004 ((0x1f << 27) + 7) sb_div0_fields cfg.sb_clk_cfg.div0
    put_fields 0xc0018008 ((0xff << 24) + (7 << 15) + 0x3f) sb_div1_fields cfg.sb_clk_cfg.div1
    put_fields 0xc001800c ((0xfffff << 12) + 0x3f) sb_div2_fields cfg.sb_clk_cfg.div2
    put_fields 0xc0018000 ((0x3ff << 22) + (3 << 12) + 0x3f) sb_sel_fields cfg.sb_clk_cfg.clock_sel

  -- `setup_clock_tree`; the argument is none without a preset, and the result false is -1.
  unfoldable pub setup_clock_tree : Option ClockCfg → Wait S Bool
  setup_clock_tree none = give false
  setup_clock_tree (some cfg) = do
    put bus 0 0xc0013010
    put bus 0 0xc0018010
    set_tbg cfg.tbg_a_cfg tbg_a
    and_out bus (tbg_ctrl 3) (2 ^ 10 + 2 ^ 26)
    spread ← spread_a cfg
    set_tbg cfg.tbg_b_cfg tbg_b
    north_bridge cfg
    south_bridge cfg
    put bus 0x9fff 0xc0013010
    put bus 0x7aa 0xc0018010
    give true
