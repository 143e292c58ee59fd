-- ===== src/Uart.antt =====
-- wtmi/uart.c: the two serial ports, and what wtmi/stdio.c writes to one.
pub mod Text
mod Tests
use mox_boot_builder.Prelude.{
  ℕ, zero, suc, ◌+◌, ◌*◌, ◌/◌, ◌%◌, ◌^◌, Bool, true, false, Option, none, some, List, [], ◌∷◌,
  bit_and, bit_or, ◌==◌, if◌then◌else◌,
}
use mox_boot_builder.Bits.{u8, u32}
use mox_boot_builder.Bus.{Bus}
use mox_boot_builder.Bus.Wait.{Wait, ◌>>=◌, ◌>>◌, give, load, put, sleep, set_bits}
use mox_boot_builder.Clock.{get_ref_clk}

-- `struct uart_info`; `second` tells `&uart2_info` from the other.
pub record UartInfo : Type 0 where
  pub second : Bool
  pub rx : ℕ
  pub tx : ℕ
  pub ctrl : ℕ
  pub status : ℕ
  pub rx_ready_bit : ℕ
  pub baud : ℕ
  pub possr : ℕ
  pub dis : ℕ
  pub dis_bit : ℕ
  pub clk_gate_bit : ℕ

abbrev pub uart1_info : UartInfo
uart1_info = record {
  second = false;
  rx = 0xc0012000;
  tx = 0xc0012004;
  ctrl = 0xc0012008;
  status = 0xc001200c;
  rx_ready_bit = 2 ^ 4;
  baud = 0xc0012010;
  possr = 0xc0012014;
  dis = 0xc0013804;
  dis_bit = 31;
  clk_gate_bit = 20;
}

abbrev pub uart2_info : UartInfo
uart2_info = record {
  second = true;
  rx = 0xc0012218;
  tx = 0xc001221c;
  ctrl = 0xc0012204;
  status = 0xc001220c;
  rx_ready_bit = 2 ^ 14;
  baud = 0xc0012210;
  possr = 0xc0012214;
  dis = 0xc0013804;
  dis_bit = 29;
  clk_gate_bit = 21;
}

-- `div_round_closest_u32` of types.h
unfoldable pub div_round_closest_u32 : ℕ → ℕ → ℕ
div_round_closest_u32 x d = u32 (x + d / 2) / d

module _ {S : Type 0} (bus : Bus S) (info : UartInfo) where
  -- `while (!(readl(info->status) & bit)) udelay(20);`, with `n` rounds left, and its negation
  unfoldable pub wait_set : ℕ → ℕ → Wait S (Unit {0})
  wait_set zero bit s = none
  wait_set (suc n) bit s =
      let (v, s1) = bus.read info.status s in
      let again = wait_set n bit (bus.pause 20000 s1) in
      if bit_and v bit == 0 then again else some (tt, s1)

  unfoldable pub wait_clear : ℕ → ℕ → Wait S (Unit {0})
  wait_clear zero bit s = none
  wait_clear (suc n) bit s =
      let (v, s1) = bus.read info.status s in
      let again = wait_clear n bit (bus.pause 20000 s1) in
      if bit_and v bit == 0 then some (tt, s1) else again

  abbrev pub pinctrl : Wait S (Unit {0})
  pinctrl = set_bits bus 0xc0013830 (2 ^ 19) (2 ^ 19 + 2 ^ 13 + 2 ^ 14)

  unfoldable pub uart_reset : ℕ → ℕ → Wait S (Unit {0})
  uart_reset fuel baudrate = do
    ref ← get_ref_clk bus
    set_bits bus info.dis (2 ^ info.dis_bit) (2 ^ info.dis_bit)
    put bus (2 ^ 12) info.ctrl
    set_bits bus info.ctrl (2 ^ 14 + 2 ^ 15) (2 ^ 14 + 2 ^ 15)
    sleep bus 200000
    wait_set fuel (2 ^ 6)
    set_bits bus 0xc0012010 (2 ^ 20 + 2 ^ 21) (2 ^ 20 + 2 ^ 21)
    set_bits bus 0xc0012010 0 (2 ^ 19 + 0x3fc00)
    set_bits bus 0xc0012010 0 (2 ^ 20 + 2 ^ 21)
    set_bits bus info.baud (div_round_closest_u32 (u32 (ref * 1000000)) (u32 (baudrate * 16))) 0x3ff
    put bus 0 info.possr
    set_bits bus info.ctrl 0 (2 ^ 12)
    set_bits bus info.ctrl 0 (2 ^ 14 + 2 ^ 15)
    put bus 0 info.ctrl
    set_bits bus info.dis 0 (2 ^ info.dis_bit)
    if info.second then pinctrl else give tt

  -- One character; `uart_putc` of any but a newline.
  unfoldable pub send : ℕ → ℕ → Wait S (Unit {0})
  send fuel c = do wait_clear fuel (2 ^ 11); put bus c info.tx

  -- `uart_putc`
  unfoldable pub uart_putc : ℕ → ℕ → Wait S ℕ
  uart_putc fuel c =
      if u8 c == 10
      then (do send fuel 13; send fuel 10; wait_set fuel (2 ^ 6); give 10)
      else (do send fuel (u8 c); give (u8 c))

  -- `uart_getc`; `x` is its static variable, and none is -EAGAIN.
  unfoldable pub uart_getc : ℕ → Wait S (Option ℕ × ℕ)
  uart_getc x = do
    if x % 100 == 0 then (if info.second then pinctrl else give tt) else give tt
    v ← load bus info.status
    if bit_and v info.rx_ready_bit == 0
        then give (none, u32 (x + 1))
        else (do c ← load bus info.rx; give (some (bit_and c 0xff), u32 (x + 1)))

  -- `fputs` of stdio.c on this port, and `puts`, which adds a newline.
  unfoldable pub fputs : ℕ → List ℕ → Wait S (Unit {0})
  fputs fuel [] s = some (tt, s)
  fputs fuel (c ∷ text) s = (uart_putc fuel c >>= λ _. fputs fuel text) s

  unfoldable pub puts : ℕ → List ℕ → Wait S (Unit {0})
  puts fuel text = fputs fuel text >>= λ _. uart_putc fuel 10 >>= λ _. give tt
