-- ===== src/Avs.antt =====
-- wtmi/avs.c: the limits of the core's voltage, from the fuses of the north bridge.
pub mod Limits
mod Tests
use mox_boot_builder.Prelude.{
  ℕ, zero, suc, ◌+◌, ◌*◌, ◌^◌, Bool, true, false, ◌||◌, Option, none, some, bit_and, bit_or, ◌==◌,
  ltb, leb, if◌then◌else◌,
}
use mox_boot_builder.Bits.{◌<<◌, ◌>>>◌, not32}
use mox_boot_builder.Bus.{Bus}
use mox_boot_builder.Bus.Wait.{Wait, ◌>>=◌, ◌>>◌, give, load, put, sleep}

abbrev pub avs_control0 : ℕ
avs_control0 = 0xc0011500

abbrev pub avs_vdd_base : ℕ
avs_vdd_base = 0xd

abbrev pub avs_vdd_mask : ℕ
avs_vdd_mask = 0x3f

abbrev pub otp_ctrl : ℕ
otp_ctrl = 0xc0012600

abbrev pub otp_rd_port : ℕ
otp_rd_port = 0xc0012604

abbrev pub otp_rd_pointer : ℕ
otp_rd_pointer = 0xc0012608

-- The place of a speed's voltage in the second word, and its default; none is an unknown speed.
unfoldable pub speed_entry : ℕ → Option (ℕ × ℕ)
speed_entry speed =
    if speed == 600
    then some (18, 0x1f)
    else if speed == 800
    then some (12, 0x1f)
    else if speed == 1000
    then some (6, 0x23)
    else if speed == 1200
    then some (0, 0x27)
    else none

-- The voltage that is set, from the first two words of the fuses.
unfoldable pub chosen_vdd : ℕ → ℕ → ℕ × ℕ → ℕ
chosen_vdd otp0 otp1 (shift, vdd_default) =
    let svc_rev = bit_and (otp0 >>> 8) 0xf in
    let vdd_otp = bit_and (otp1 >>> shift) avs_vdd_mask in
    if leb 2 svc_rev
    then (if vdd_otp == 0 || ltb avs_vdd_mask (vdd_otp + avs_vdd_base)
        then vdd_default
        else vdd_otp + avs_vdd_base)
    else vdd_default

-- The register with the high and the low limit set to a voltage.
unfoldable pub limits : ℕ → ℕ → ℕ
limits reg vdd =
    let cleared = bit_and reg (not32 (bit_or (avs_vdd_mask << 16) (avs_vdd_mask << 22))) in
    bit_or (bit_or cleared (vdd << 16)) (vdd << 22)

module _ {S : Type 0} (bus : Bus S) where
  abbrev set_bit : ℕ → ℕ → Wait S (Unit {0})
  set_bit addr bit = do v ← load bus addr; put bus (bit_or v bit) addr

  abbrev clear_bit : ℕ → ℕ → Wait S (Unit {0})
  clear_bit addr bit = do v ← load bus addr; put bus (bit_and v (not32 bit)) addr

  -- `otp_nb_read_parallel`: the three words.
  unfoldable pub otp_nb_read_parallel : Wait S (ℕ × ℕ × ℕ)
  otp_nb_read_parallel = do
    clear_bit otp_ctrl (2 ^ 15)
    set_bit otp_ctrl (2 ^ 13)
    set_bit otp_rd_pointer (2 ^ 8)
    set_bit otp_ctrl (2 ^ 14)
    clear_bit otp_ctrl (2 ^ 14)
    set_bit otp_ctrl (2 ^ 3)
    clear_bit otp_ctrl (2 ^ 3)
    sleep bus 100
    set_bit otp_ctrl (2 ^ 3)
    sleep bus 100000
    w0 ← load bus otp_rd_port
    sleep bus 100000
    w1 ← load bus otp_rd_port
    sleep bus 100000
    w2 ← load bus otp_rd_port
    give (w0, w1, w2)

  -- `init_avs` after the choice; the result is false for -1.
  abbrev pub set_limits : ℕ → ℕ × ℕ × ℕ → Option (ℕ × ℕ) → Wait S Bool
  set_limits reg otp none = give false
  set_limits reg otp (some entry) = do
    put bus (limits reg (chosen_vdd otp.0 otp.1 entry)) avs_control0
    clear_bit avs_control0 (2 ^ 31 + 2 ^ 30 + 2 ^ 29)
    set_bit avs_control0 (2 ^ 30 + 2 ^ 28)
    sleep bus 100000000
    give true

  unfoldable pub init_avs : ℕ → Wait S Bool
  init_avs speed = do
    otp ← otp_nb_read_parallel
    reg ← load bus avs_control0
    set_limits reg otp (speed_entry speed)
