-- ===== src/Crypto/Engine.antt =====
-- The two engines of crypto.c: points of the curve (ECP), and arithmetic modulo a prime (ZMODP).
use mox_boot_builder.Prelude.{
  ℕ, zero, suc, ◌+◌, ◌-◌, ◌*◌, ◌/◌, ◌^◌, Bool, true, false, not, List, [], ◌++◌, bit_and, bit_or,
  ◌||◌, ltb, ◌==◌, ◌!=◌, if◌then◌else◌, take, replicate,
}
use mox_boot_builder.Bits.{◌<<◌}
use mox_boot_builder.Bus.{Bus, Result, ok, err}
use mox_boot_builder.Bus.Wait.{
  Wait, ◌>>=◌, ◌>>◌, give, if_ok, run, put, set_bits, poll_any, put_words, load_words,
}
use mox_boot_builder.Mbox.Status.{einval, edom}
use mox_boot_builder.Efuse.Rows.{efuse_read_secure_buffer}
use mox_boot_builder.Bignum.{bn_from_u32}
use mox_boot_builder.Crypto.{EcPoint, Prime, curve_a, curve_b}

abbrev pub aib_ctrl : ℕ
aib_ctrl = 0x40000c00

abbrev pub sp_ctrl : ℕ
sp_ctrl = 0x40001c00

abbrev pub zmodp_conf : ℕ
zmodp_conf = 0x40002000

abbrev pub zmodp_cmd : ℕ
zmodp_cmd = 0x40002008

abbrev pub zmodp_int : ℕ
zmodp_int = 0x40002010

abbrev pub zmodp_moduli : ℕ
zmodp_moduli = 0x40002318

abbrev pub zmodp_y : ℕ
zmodp_y = 0x4000231c

abbrev pub zmodp_z : ℕ
zmodp_z = 0x40002320

-- `ZMODP_X(i)`, `ZMODP_X1(i)` and `ZMODP_EXP(i)`
abbrev pub zmodp_x : ℕ → ℕ
zmodp_x i = 0x40002018 + 4 * i

abbrev pub zmodp_x1 : ℕ → ℕ
zmodp_x1 i = 0x40002118 + 4 * i

abbrev pub zmodp_exp : ℕ → ℕ
zmodp_exp i = 0x40002218 + 4 * i

-- `ZMODP_CONF_OP_…`
pub data ZmodpOp : Type 0 where
  mont mul exp inv pre : ZmodpOp

abbrev pub op_code : ZmodpOp → ℕ
op_code mont = 0
op_code mul = 1
op_code exp = 2
op_code inv = 3
op_code pre = 4

abbrev pub is_exp : ZmodpOp → Bool
is_exp exp = true
is_exp op = false

abbrev pub is_inv : ZmodpOp → Bool
is_inv inv = true
is_inv op = false

abbrev pub is_pre : ZmodpOp → Bool
is_pre pre = true
is_pre op = false

-- `op == ZMODP_CONF_OP_MUL || op == ZMODP_CONF_OP_MONT`
abbrev pub takes_otp : ZmodpOp → Bool
takes_otp mont = true
takes_otp mul = true
takes_otp op = false

abbrev pub ecp_conf : ℕ
ecp_conf = 0x40001400

abbrev pub ecp_cmd : ℕ
ecp_cmd = 0x40001408

abbrev pub ecp_int : ℕ
ecp_int = 0x4000140c

abbrev pub ecp_param_a : ℕ
ecp_param_a = 0x40001418

abbrev pub ecp_param_b : ℕ
ecp_param_b = 0x4000145c

abbrev pub ecp_op1_x : ℕ
ecp_op1_x = 0x400014a0

abbrev pub ecp_op1_y : ℕ
ecp_op1_y = 0x400014e4

abbrev pub ecp_op2_x : ℕ
ecp_op2_x = 0x40001528

abbrev pub ecp_op2_y : ℕ
ecp_op2_y = 0x4000156c

abbrev pub ecp_res_x : ℕ
ecp_res_x = 0x400015b0

abbrev pub ecp_res_y : ℕ
ecp_res_y = 0x400015f4

-- `ECP_INT_ZERO_OUTPUT | ECP_INT_CAL_ZERO_INV`
abbrev pub ecp_int_zero : ℕ
ecp_int_zero = 0x18

-- The static variables `zmodp_longs`, `zmodp_pad` and `zmodp_prime`.
pub record Zmodp : Type 0 where
  pub longs : ℕ
  pub pad : ℕ
  pub modulus : Prime

-- How many binary digits a number has that is below 2 ^ n.
unfoldable pub bit_length : ℕ → ℕ → ℕ
bit_length zero x = 0
bit_length (suc n) x = let rest = bit_length n (x / 2) in if x == 0 then 0 else suc rest

-- `__builtin_clz`, for a number that is not 0
abbrev pub clz : ℕ → ℕ
clz x = 32 - bit_length 32 x

-- `ZMODP_CONF_SZ`
abbrev pub zmodp_conf_sz : ℕ → ℕ
zmodp_conf_sz bits = (25 - clz (bits - 1)) << 3

-- The words of an array, and zeros up to `zmodp_pad`.
abbrev pub padded : Zmodp → List ℕ → List ℕ
padded z ws = take z.longs ws ++ replicate (z.pad - z.longs) 0

-- Consecutive words from an address on, as in `bn_copy` to and from the engine.
abbrev pub words_at : ℕ → ℕ → ℕ
words_at addr i = addr + 4 * i

module _ {S : Type 0} (bus : Bus S) (fuel : ℕ) where
  abbrev pub bn_write : ℕ → List ℕ → Wait S (Unit {0})
  bn_write addr ws = put_words bus (words_at addr) 0 (take 17 ws)

  abbrev pub bn_read : ℕ → Wait S (List ℕ)
  bn_read addr = load_words bus (words_at addr) 0 17

  unfoldable pub ecp_wait : Wait S ℕ
  ecp_wait = do val ← poll_any bus fuel ecp_int; put bus val ecp_int; give val

  unfoldable pub ecp_init : Wait S (Unit {0})
  unfolding ecp_wait
  ecp_init = do
    put bus 0x250 aib_ctrl
    set_bits bus sp_ctrl 0x10 0x30
    put bus 0x17 ecp_conf
    put bus 1 ecp_cmd
    _ ← ecp_wait
    give tt

  unfoldable pub ecp_secp521r1_init : Wait S (Unit {0})
  unfolding ecp_init
  ecp_secp521r1_init = do ecp_init; bn_write ecp_param_a curve_a; bn_write ecp_param_b curve_b

  unfoldable pub ecp_clear_operands : Wait S (Unit {0})
  ecp_clear_operands = do
    bn_write ecp_op1_x (bn_from_u32 0)
    bn_write ecp_op1_y (bn_from_u32 0)
    bn_write ecp_op2_x (bn_from_u32 0)
    bn_write ecp_op2_y (bn_from_u32 0)

  -- The end of each operation on points: start, wait, and copy the result or report `-EDOM`.
  -- `want` is `if (r)`; without it the result has no coordinates.
  unfoldable pub ecp_finish : ℕ → Bool → Wait S (Result EcPoint)
  unfolding ecp_wait
  ecp_finish conf want = do
    put bus conf ecp_conf
    put bus 1 ecp_cmd
    val ← ecp_wait
    let result : Wait S (Result EcPoint) = do
      px ← bn_read ecp_res_x
      py ← bn_read ecp_res_y
      give (ok (record { x = px; y = py }))
    if bit_and val ecp_int_zero != 0
        then give (err edom)
        else if want
        then result
        else give (ok (record { x = []; y = [] }))

  -- `ecp_secp521r1_add`
  unfoldable pub point_add : EcPoint → EcPoint → Wait S (Result EcPoint)
  unfolding ecp_secp521r1_init ecp_finish
  point_add a b = do
    ecp_secp521r1_init
    bn_write ecp_op1_x a.x
    bn_write ecp_op1_y a.y
    bn_write ecp_op2_x b.x
    bn_write ecp_op2_y b.y
    ecp_finish 7 true

  -- `ecp_secp521r1_point_mul`; `want` says that the caller passes a place for the result.
  unfoldable pub point_mul : Bool → EcPoint → List ℕ → Wait S (Result EcPoint)
  unfolding ecp_secp521r1_init ecp_finish
  point_mul want a scalar = do
    ecp_secp521r1_init
    bn_write ecp_op1_x a.x
    bn_write ecp_op1_y a.y
    bn_write ecp_op2_x scalar
    bn_write ecp_op2_y scalar
    ecp_finish 3 want

  -- `ecp_secp521r1_point_mul_by_otp`; `sbfill` is the flag of the secure buffer.
  unfoldable pub point_mul_by_otp : Bool → EcPoint → Wait S (Result EcPoint)
  unfolding ecp_secp521r1_init ecp_finish
  point_mul_by_otp sbfill a =
      run (efuse_read_secure_buffer bus sbfill)
      >>= if_ok (λ _. do
        ecp_secp521r1_init
        bn_write ecp_op1_x a.x
        bn_write ecp_op1_y a.y
        bn_write ecp_op2_x (bn_from_u32 1)
        bn_write ecp_op2_y (bn_from_u32 1)
        ecp_finish 0x23 true)

  unfoldable pub zmodp_wait : Wait S (Unit {0})
  zmodp_wait = do val ← poll_any bus fuel zmodp_int; put bus val zmodp_int

  unfoldable pub zmodp_zeroize : Wait S (Unit {0})
  unfolding zmodp_wait
  zmodp_zeroize = do put bus 1 zmodp_cmd; zmodp_wait

  -- `zmodp_set_size` and `zmodp_set_prime`: the new static variables. The callers pass a size of at
  -- most 2048, and ignore the result.
  unfoldable pub zmodp_setup : ℕ → Prime → Wait S Zmodp
  zmodp_setup bits modulus =
      let longs = (bits + 31) / 32 in
      let size = if ltb bits 128 then 128 else bits in
      do
        set_bits bus zmodp_conf (bit_or (zmodp_conf_sz size) (bit_and longs 0x7f << 6)) 0x1ff8
        give (record { longs = longs; pad = 1 << (27 - clz (size - 1)); modulus = modulus })

  -- The operands of `zmodp_op`. `x_from_otp` says that the first comes from the fuses.
  abbrev pub zmodp_operands : Zmodp → ZmodpOp → List ℕ → List ℕ → Bool → Wait S (Unit {0})
  zmodp_operands z op x y x_from_otp = do
    if x_from_otp then give tt else put_words bus zmodp_x 0 (padded z x)
    if is_exp op || is_inv op then put_words bus (λ i. zmodp_y) 0 (padded z z.modulus.r) else (do
      put_words bus zmodp_x1 0 (padded z z.modulus.r)
      put_words bus (λ i. zmodp_y) 0 (padded z y))
    if is_exp op then put_words bus zmodp_exp 0 (padded z y) else give tt

  abbrev pub zmodp_run : Zmodp → ZmodpOp → List ℕ → List ℕ → Bool → Bool → Wait S (Result (List ℕ))
  zmodp_run z op x y x_from_otp clear_x = do
    let otp_bit = if x_from_otp then 2 ^ 15 else 0
    put bus 0x260 aib_ctrl
    set_bits bus sp_ctrl 0x10 0x30
    set_bits bus zmodp_conf (bit_or (bit_or (2 ^ 13) (op_code op)) otp_bit) 0xa007
    put_words bus (λ i. zmodp_moduli) 0 (padded z z.modulus.p)
    if is_pre op then give tt else zmodp_operands z op x y x_from_otp
    put bus 2 zmodp_cmd
    zmodp_wait
    if clear_x then put_words bus zmodp_x 0 (replicate z.longs 0) else give tt
    res ← load_words bus (λ i. zmodp_z) 0 z.longs
    _ ← load_words bus (λ i. zmodp_z) 0 (z.pad - z.longs)
    give (ok res)

  -- `zmodp_op`
  unfoldable pub zmodp_op :
      Zmodp → ZmodpOp → List ℕ → List ℕ → Bool → Bool → Bool → Wait S (Result (List ℕ))
  zmodp_op z op x y x_from_otp clear_x sbfill =
      if not x_from_otp
      then zmodp_run z op x y false clear_x
      else if not (takes_otp op)
      then give (err einval)
      else (run (efuse_read_secure_buffer bus sbfill)
          >>= if_ok (λ _. zmodp_run z op x y true clear_x))
