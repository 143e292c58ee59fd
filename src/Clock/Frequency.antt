-- ===== src/Clock/Frequency.antt =====
-- The frequency that `set_tbg_clock` reaches, against the one that was asked for.
use mox_boot_builder.Prelude.{
  ℕ, ◌+◌, ◌*◌, ◌/◌, ◌^◌, ◌≤◌, ◌<◌, ◌≡◌, ap, ap₂, ◌∙◌, arith, Bool, true, false, ltb, if◌then◌else◌,
}
use native.Mathlib.Nat.{
  div-mul-le_self, lt-div-mul-add, pow-le-pow_right, one-le-pow, mul-le-mul, add-mul,
}
use mox_boot_builder.Bits.{◌<<◌, u32}
use mox_boot_builder.Clock.{tbg_m, tbg_n, tbg_freq}

-- The reference clock of a board.
abbrev pub ref_clk : Bool → ℕ
ref_clk forty = if forty then 40 else 25

-- N, times four and the reference clock, is the wanted product but for a rounding.
rounded_n :
    (forty : Bool) (kvco : ℕ)
    → kvco ≤ 3000
    → let ref = ref_clk forty in
      let n = tbg_n kvco (tbg_m ref) ref in
      (n * ref * 4 ≤ kvco * tbg_m ref) × (kvco * tbg_m ref < n * ref * 4 + 4 * ref)
unfolding tbg_n
rounded_n true kvco h = omega arith
rounded_n false kvco h = omega arith

m_range : (forty : Bool) → (1 ≤ tbg_m (ref_clk forty)) × (tbg_m (ref_clk forty) ≤ 4)
m_range true = omega arith
m_range false = omega arith

power_le : (d : ℕ) → d ≤ 7 → (2 ^ d ≤ 128) × (0 < 2 ^ d)
power_le d h = (pow-le-pow_right (omega arith) h, one-le-pow d 2 (omega arith))

freq_value :
    (n m ref d : ℕ)
    → d ≤ 7
    → n * ref ≤ 3000
    → m ≤ 4
    → tbg_freq n m ref d ≡ n * ref * 4 / (m * 2 ^ d)
unfolding tbg_freq
freq_value n m ref d h b c =
    let low : m * 2 ^ d ≤ 4 * 128 = mul-le-mul c (power_le d h).0 in
    let shown : ltb 7 d ≡ false = ground arith in
    let top : u32 (u32 (n * ref) << 2) ≡ n * ref * 4 = omega arith in
    let same : m * (1 << d) ≡ m * 2 ^ d = ap (λ (p : ℕ). m * p) (omega arith) in
    let bottom : u32 (m * (1 << d)) ≡ m * 2 ^ d = ap (λ (p : ℕ). u32 p) same ∙ omega arith in
    rw shown (ap₂ (λ (x y : ℕ). x / y) top bottom)

-- The formula by which `set_tbg_clock` computes N and the one by which `get_tbg_clk` computes a
-- frequency, with either reference clock, for a KVCO of at most 3000 MHz and an exponent of at most
-- 7: the second, of the N that the first gives, is not above KVCO divided by the power of two, and
-- below it by less than one MHz and what rounding N takes away; here times that power and M, so that
-- nothing is divided.
pub tbg_freq-tbg_n :
    (forty : Bool) (kvco d : ℕ)
    → kvco ≤ 3000
    → d ≤ 7
    → let ref = ref_clk forty in
      let m = tbg_m ref in
      let f = tbg_freq (tbg_n kvco m ref) m ref d in
      (f * (m * 2 ^ d) ≤ kvco * m) × (kvco * m < (f + 1) * (m * 2 ^ d) + 4 * ref)
tbg_freq-tbg_n forty kvco d h l =
    let ref = ref_clk forty in
    let m = tbg_m ref in
    let n = tbg_n kvco m ref in
    let (below, above) = rounded_n forty kvco h in
    let (m_pos, m_le) = m_range forty in
    let most : kvco * m ≤ 3000 * 4 = mul-le-mul h m_le in
    let denom = m * 2 ^ d in
    let positive : 0 < denom = mul-le-mul m_pos (power_le d l).1 in
    let f = n * ref * 4 / denom in
    let value : tbg_freq n m ref d ≡ f = freq_value n m ref d l (omega arith) m_le in
    let up : (f + 1) * denom ≡ f * denom + denom = add-mul f 1 denom ∙ omega arith in
    rw value (
      omega (
        arith,
        div-mul-le_self (n * ref * 4) denom,
        lt-div-mul-add {a = n * ref * 4} {b = denom} positive,
        up,
      ))
