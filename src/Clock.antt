-- ===== src/Clock.antt =====
-- wtmi/clock.c: the clock generators TBG-A and TBG-B, and the dividers behind them. A clock line is
-- its number: 0 and 1 are TBG-A and TBG-B with the differential divider, 2 and 3 with the other.
pub mod Presets
pub mod Tree
pub mod Settled
pub mod Frequency
mod Tests
use mox_boot_builder.Prelude.{
  ℕ, zero, suc, ◌+◌, ◌*◌, ◌/◌, ◌%◌, ◌^◌, Bool, true, false, ◌||◌, Option, none, some, List, [], ◌∷◌,
  bit_and, bit_or, ◌==◌, ltb, leb, if◌then◌else◌,
}
use mox_boot_builder.Bits.{◌<<◌, ◌>>>◌, not32, u32}
use mox_boot_builder.Bus.{Bus}
use mox_boot_builder.Bus.Wait.{Wait, ◌>>=◌, ◌>>◌, give, load, put, sleep}

-- `NB_TBG_CTRL0` to `NB_TBG_CTRL7`
abbrev pub tbg_ctrl : ℕ → ℕ
tbg_ctrl n = 0xc0013204 + 4 * n

abbrev pub tbg_ctrl8 : ℕ
tbg_ctrl8 = 0xc0013230

-- `enum clock_src`
pub data ClockSrc : Type 0 where
  tbg_a tbg_b : ClockSrc

-- `(tbg_typ == TBG_A) ? x : y`
abbrev pub choose : ClockSrc → ℕ → ℕ → ℕ
choose tbg_a x y = x
choose tbg_b x y = y

-- `get_tbg_vco_sel`: the first range whose top is not below the frequency; it stays 0 without one.
unfoldable pub find_range : ℕ → ℕ → List ℕ → ℕ
find_range kvco_mhz index [] = 0
find_range kvco_mhz index (top ∷ tops) =
    let rest = find_range kvco_mhz (index + 1) tops in if leb kvco_mhz top then index + 8 else rest

unfoldable pub vco_range : ℕ → ℕ
vco_range kvco_mhz =
    find_range kvco_mhz 0 (1350 ∷ 1500 ∷ 1750 ∷ 2000 ∷ 2200 ∷ 2400 ∷ 2600 ∷ 3000 ∷ [])

unfoldable pub vco_intpi : ℕ → ℕ
vco_intpi kvco_mhz = if ltb 2500 kvco_mhz then 8 else if ltb kvco_mhz 2000 then 5 else 6

-- The numbers M and ICP for a reference clock, and N.
abbrev pub tbg_m : ℕ → ℕ
tbg_m ref = if ref == 40 then 4 else 3

abbrev pub tbg_icp : ℕ → ℕ
tbg_icp ref = if ref == 40 then 5 else 6

unfoldable pub tbg_n : ℕ → ℕ → ℕ → ℕ
tbg_n kvco_mhz m ref = (u32 (kvco_mhz * m) / ref) >>> 2

-- The frequency of `get_tbg_clk`, from N, M, the reference clock and the divider's exponent.
unfoldable pub tbg_freq : ℕ → ℕ → ℕ → ℕ → ℕ
tbg_freq n m ref exponent =
    if ltb 7 exponent then 0 else u32 (u32 (n * ref) << 2) / u32 (m * (1 << exponent))

-- `struct ssc_cfg`; `down` is DOWN_SPREAD, and `up` is freq_up.
pub record SscCfg : Type 0 where
  pub down : Bool
  pub mod_freq : ℕ
  pub amp_freq : ℕ
  pub offset : ℕ
  pub up : Bool

-- `freq_div` and `tval` of `set_ssc_clock`; `ddr` is what `get_ddr_clock` returns.
unfoldable pub ssc_freq_div : ℕ → ℕ → ℕ → SscCfg → ℕ
ssc_freq_div ddr kvco_mhz se_vco_div ssc =
    if ddr == 600
    then 0x2800
    else u32 (u32 (kvco_mhz * (if ssc.down then 125000 else 62500)) * (1 << se_vco_div))
      / ssc.mod_freq

unfoldable pub ssc_range : ℕ → ℕ → ℕ → SscCfg → ℕ
ssc_range ddr kvco_mhz freq_div ssc =
    if ddr == 600
    then 0x3c
    else bit_and (u32 ((ssc.amp_freq / 1000000) << 26) / u32 (kvco_mhz * freq_div)) 0x7ff

module _ {S : Type 0} (bus : Bus S) where
  -- `regval = readl(addr); regval &= ~mask; regval |= v; writel(regval, addr);`, and its halves
  abbrev pub change : ℕ → ℕ → ℕ → Wait S (Unit {0})
  change addr mask v = do r ← load bus addr; put bus (bit_or (bit_and r (not32 mask)) v) addr

  abbrev pub or_in : ℕ → ℕ → Wait S (Unit {0})
  or_in addr v = do r ← load bus addr; put bus (bit_or r v) addr

  abbrev pub and_out : ℕ → ℕ → Wait S (Unit {0})
  and_out addr mask = do r ← load bus addr; put bus (bit_and r (not32 mask)) addr

  -- `|=`, a write, `&= ~`, and another write of the same value
  abbrev pub toggle : ℕ → ℕ → Wait S (Unit {0})
  toggle addr bit = do
    r ← load bus addr
    put bus (bit_or r bit) addr
    put bus (bit_and (bit_or r bit) (not32 bit)) addr

  unfoldable pub get_ref_clk : Wait S ℕ
  get_ref_clk = do v ← load bus 0xc0013808; give (if bit_and v (2 ^ 9) == 0 then 25 else 40)

  -- The loop that waits for both locks, with `n` rounds left.
  unfoldable pub wait_locked : ℕ → Wait S (Unit {0})
  wait_locked zero s = none
  wait_locked (suc n) s =
      let (v, s1) = bus.read (tbg_ctrl 1) s in
      let again = wait_locked n s1 in
      if bit_and v (2 ^ 15 + 2 ^ 31) == 2 ^ 15 + 2 ^ 31 then some (tt, s1) else again

  -- The registers of `set_tbg_clock`, once N, M and the charge pump are known.
  unfoldable pub program_tbg : ℕ → ℕ → ℕ → ClockSrc → ℕ → ℕ → ℕ → Wait S (Unit {0})
  program_tbg kvco_mhz se_vco_div diff_vco_div src n m icp = do
    or_in (tbg_ctrl 0) (choose src (2 ^ 0) (2 ^ 16))
    change (tbg_ctrl 0) (choose src (0xff << 2) (0xff << 18)) (u32 (choose src (n << 2) (n << 18)))
    change (tbg_ctrl 7) (choose src 0x1ff (0x1ff << 16)) (u32 (choose src m (m << 16)))
    change (tbg_ctrl 1) (choose src 0x1ff (0x1ff << 16))
        (u32 (choose src se_vco_div (se_vco_div << 16)))
    change tbg_ctrl8 (choose src (0x1ff << 1) (0x1ff << 17))
        (u32 (choose src (diff_vco_div << 1) (diff_vco_div << 17)))
    and_out (tbg_ctrl 1) (choose src (1 << 11) (1 << 27))
    change (tbg_ctrl 2) (choose src (0xf << 8) (0xf << 24))
        (u32 (choose src (icp << 8) (icp << 24)))
    change (tbg_ctrl 3) (choose src 0xf (0xf << 16))
        (choose src (vco_range kvco_mhz) (vco_range kvco_mhz << 16))
    change (tbg_ctrl 2) (choose src 0xf (0xf << 16))
        (choose src (vco_intpi kvco_mhz) (vco_intpi kvco_mhz << 16))
    and_out (tbg_ctrl 0) (choose src (2 ^ 0) (2 ^ 16))
    and_out (tbg_ctrl 1) (choose src (2 ^ 9) (2 ^ 25))

  unfoldable pub set_tbg_clock : ℕ → ℕ → ℕ → ℕ → ClockSrc → Wait S (Unit {0})
  set_tbg_clock fuel kvco_mhz se_vco_div diff_vco_div src = do
    ref ← get_ref_clk
    ref1 ← get_ref_clk
    program_tbg kvco_mhz se_vco_div diff_vco_div src (tbg_n kvco_mhz (tbg_m ref) ref1) (tbg_m ref)
        (tbg_icp ref)
    wait_locked fuel
    sleep bus 40000

  -- Step 2 of `set_ssc_clock`.
  unfoldable pub set_offset : ClockSrc → SscCfg → Wait S (Unit {0})
  set_offset src ssc =
      let mode = if ssc.up then 1 else 0 in
      if ssc.offset == 0
      then and_out (tbg_ctrl 3) (choose src (2 ^ 11 + 2 ^ 12) (2 ^ 27 + 2 ^ 28))
      else (do
        change (tbg_ctrl 4) (choose src (0xffff << 16) 0xffff)
            (u32 (choose src (ssc.offset << 16) ssc.offset))
        change (tbg_ctrl 3) (choose src (2 ^ 4) (2 ^ 20)) (choose src (mode << 4) (mode << 20))
        toggle (tbg_ctrl 3) (choose src (2 ^ 11) (2 ^ 27)))

  -- `set_ssc_clock`; the result is false for -1.
  unfoldable pub set_ssc_clock : ℕ → ℕ → ℕ → ClockSrc → SscCfg → Wait S Bool
  set_ssc_clock ddr kvco_mhz se_vco_div src ssc =
      let freq_div = ssc_freq_div ddr kvco_mhz se_vco_div ssc in
      let tval = ssc_range ddr kvco_mhz freq_div ssc in
      let mode = if ssc.down then 1 else 0 in
      if ltb kvco_mhz 1500 then give false else (do
        toggle (tbg_ctrl 5) (choose src (2 ^ 11) (2 ^ 27))
        set_offset src ssc
        change (tbg_ctrl 6) (choose src 0xff (0xff << 16))
            (u32 (choose src freq_div (freq_div << 16)))
        change (tbg_ctrl 5) (choose src 0x7ff (0x7ff << 16)) (choose src tval (tval << 16))
        change (tbg_ctrl 5) (choose src (2 ^ 12) (2 ^ 28)) (choose src (mode << 12) (mode << 28))
        and_out (tbg_ctrl 1) (choose src (2 ^ 12 + 2 ^ 13) (2 ^ 28 + 2 ^ 29))
        change (tbg_ctrl 2) (choose src (7 << 4) (7 << 20)) (choose src (4 << 4) (4 << 20))
        or_in (tbg_ctrl 3) (choose src (2 ^ 5) (2 ^ 21))
        or_in (tbg_ctrl 1) (choose src (2 ^ 10) (2 ^ 26))
        or_in (tbg_ctrl 3) (choose src (2 ^ 10) (2 ^ 26))
        sleep bus 5000
        or_in (tbg_ctrl 2) (choose src (2 ^ 13) (2 ^ 29))
        give true)

  -- `get_tbg_clk`: the fields of a line in the control registers, and the frequency.
  unfoldable pub get_tbg_clk : ℕ → Wait S ℕ
  get_tbg_clk line = do
    let on_a = line == 2 || line == 0
    ref ← get_ref_clk
    r7 ← load bus (tbg_ctrl 7)
    let m = if on_a then bit_and r7 0x1ff else bit_and (r7 >>> 16) 0x1ff
    r0 ← load bus (tbg_ctrl 0)
    let n = bit_and (r0 >>> (if on_a then 2 else 18)) 0x1ff
    d ← load bus (if line == 2 || line == 3 then tbg_ctrl 1 else tbg_ctrl8)
    let shift = if line == 2 then 0 else if line == 3 then 16 else if line == 0 then 1 else 17
    give (tbg_freq n (if m == 0 then 1 else m) ref (bit_and (d >>> shift) 0x1ff))

  -- The last part of `get_cm3_clk`: the two dividers.
  unfoldable pub divide_cm3 : ℕ → Wait S ℕ
  divide_cm3 tbg = do
    r ← load bus 0xc0013008
    let scl1 = bit_and (r >>> 15) 7
    if scl1 == 7 || scl1 == 0 then give 0 else (do
      r1 ← load bus 0xc0013008
      let scl2 = bit_and (r1 >>> 12) 7
      give (if scl2 == 7 || scl2 == 0 then 0 else tbg / (scl1 * scl2)))

  unfoldable pub get_cm3_clk : Wait S ℕ
  get_cm3_clk = do
    c ← load bus 0xc0013010
    if bit_and (c >>> 4) 1 == 0 then get_ref_clk else (do
      sel ← load bus 0xc0013000
      tbg ← get_tbg_clk (bit_and (sel >>> 8) 3)
      if tbg == 0 then give 0 else divide_cm3 tbg)
