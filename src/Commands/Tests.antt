-- ===== src/Commands/Tests.antt =====
-- Commands of main.c at concrete inputs.
use mox_boot_builder.Prelude.{
  ℕ, ◌+◌, ◌*◌, ◌^◌, ◌≡◌, refl, arith, false, List, [], ◌∷◌, ◌==◌, ltb, some, if◌then◌else◌,
  replicate, length, get_or,
}
use mox_boot_builder.Bus.{Bus}
use mox_boot_builder.Bus.Wait.{poll_any, put_words, load_words}
use mox_boot_builder.Bignum.{
  bn_from_u32, cmp_below, bn_cmp, bn_is_zero, add_words, bn_add, bn_modulo, bn_addmod,
}
use mox_boot_builder.Entropy.Mixed.{words_of, bytes_of}
use mox_boot_builder.Crypto.Ecdsa.{
  Random, ecdsa_valid_scalar, bn_random, random_scalar, sign_r, sign_loop, ecdsa_sign,
}
use mox_boot_builder.Crypto.Engine.{
  bit_length, ecp_wait, ecp_init, ecp_secp521r1_init, ecp_clear_operands, ecp_finish, point_mul,
  zmodp_wait, zmodp_zeroize, zmodp_setup, zmodp_op,
}
use mox_boot_builder.Mbox.Status.{sts}
use mox_boot_builder.Efuse.{ecc_of}
use mox_boot_builder.Efuse.Raw.{raw_read}
use mox_boot_builder.Efuse.Rows.{
  read_row_any, read_checked, efuse_read_secure_buffer, read_key_rows,
}
use mox_boot_builder.Commands.ApRam.{
  ApRam, run_events, with_ap_mem, fetch_bytes, keep_bytes, copy_from_ap_cb, copy_from_ap,
  copy_to_ap_cb, copy_to_ap,
}
use mox_boot_builder.Commands.Crypto.{
  Answer, reverse_loop, array_reverse_u32, bad_sign_addrs, cmd_sign,
}
use mox_boot_builder.Commands.Crypto.Reverse.{array_reverse_u32_lem}
use mox_boot_builder.Commands.{vote}
use mox_boot_builder.Commands.Majority.{vote-majority}
use mox_boot_builder.Commands.ApMem.{ap_loop, process_ap_mem, check_ap_addr}
use mox_boot_builder.Commands.ApMem.Covers.{Covers}

vote-majority_example : vote (1 + 2 * 0 + 4 * 1) ≡ (if ltb 1 (1 + 0 + 1) then 1 else 0)
vote-majority_example = vote-majority 1 0 1 (omega arith) (omega arith) (omega arith)

-- Engines that are done, and answer 1 for each word.
abbrev engines : Bus (Unit {0})
engines = record {
  read = λ addr s. (
    if addr == 0x40003440 then 2 ^ 31 + 2 ^ 29 + 16 else if ltb addr 0x40003000 then 1 else 0,
    s,
  );
  write = λ v addr s. s;
  pause = λ n s. s;
}

abbrev ones : Random (Unit {0})
ones = record { paranoid_rand = λ n s. some (replicate n 1, s) }

abbrev empty_ram : ApRam (Unit {0})
empty_ram = record { fetch = λ addr s. (0, s); keep = λ addr b s. s }

abbrev sign_args : List ℕ
sign_args = 1 ∷ 0x1000 ∷ 0x2000 ∷ 0x3000 ∷ []

abbrev signed_answer : Answer
signed_answer = (0, [])

signed_run :
    cmd_sign engines empty_ram ones 4 512 [] false sign_args [] tt ≡ some (signed_answer, tt)
unfolding cmd_sign bad_sign_addrs check_ap_addr copy_from_ap copy_to_ap with_ap_mem process_ap_mem
    ap_loop run_events copy_from_ap_cb copy_to_ap_cb fetch_bytes keep_bytes words_of bytes_of
    array_reverse_u32 reverse_loop ecdsa_sign sign_loop sign_r random_scalar bn_random
    ecdsa_valid_scalar bn_from_u32 cmp_below bn_cmp bn_is_zero add_words bn_add bn_modulo bn_addmod
    bit_length ecp_wait ecp_init ecp_secp521r1_init ecp_finish point_mul zmodp_wait zmodp_zeroize
    zmodp_setup zmodp_op poll_any put_words load_words ecp_clear_operands efuse_read_secure_buffer
    read_row_any ecc_of read_checked raw_read read_key_rows sts
signed_run = refl

abbrev outside_args : List ℕ
outside_args = 1 ∷ 0x1000 ∷ 0x2000 ∷ 0x1fffffc0 ∷ []

array_reverse_u32_lem_example :
    let x : List ℕ = 7 ∷ 8 ∷ 9 ∷ [] in
    (length (array_reverse_u32 x 3) ≡ 3) × (get_or (array_reverse_u32 x 3) 0 0 ≡ 9)
array_reverse_u32_lem_example = array_reverse_u32_lem (7 ∷ 8 ∷ 9 ∷ []) 0 (omega arith)
