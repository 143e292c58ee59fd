-- ===== src/Commands/ApMem.antt =====
-- wtmi/main.c: application processor RAM, seen through a window of 1 GiB that is moved.
pub mod Covers
use mox_boot_builder.Prelude.{
  ℕ, zero, suc, ◌+◌, ◌-◌, ◌*◌, ◌/◌, ◌%◌, ◌^◌, Bool, true, false, ◌||◌, not, List, [], ◌∷◌, ◌++◌,
  bit_and, ◌==◌, ◌!=◌, ltb, leb, min, if◌then◌else◌, Option, none, some,
}
use mox_boot_builder.Bits.{◌<<◌, u32, sub32}

-- `rwtm_win_remap(0, base)`, and a call of `cb` on a part of the window: its address and length.
pub data Event : Type 0 where
  remap : ℕ → Event
  chunk : ℕ → ℕ → Event

-- `AP_RAM`
abbrev pub ap_ram : ℕ → ℕ
ap_ram a = u32 (0x60000000 + a)

-- The window of an address: `addr & 0xc0000000`
abbrev pub window : ℕ → ℕ
window addr = bit_and addr 0xc0000000

-- `if (cur_base != 0) rwtm_win_remap(0, 0);`
abbrev pub restore : ℕ → List Event
restore cur = if cur == 0 then [] else remap 0 ∷ []

-- The loop; `fuel` bounds the number of windows, of which there are four.
unfoldable pub ap_loop : ℕ → ℕ → ℕ → ℕ → Option (List Event)
ap_loop zero cur addr len = none
ap_loop (suc fuel) cur addr len =
    let new = window (sub32 (u32 (addr + min len 0x40000000)) 1) in
    let cur_len = if cur == new then len else sub32 new addr in
    let part = chunk (ap_ram (sub32 addr cur)) cur_len in
    let rest = ap_loop fuel new new (sub32 len cur_len) in
    if cur == new
    then some (part ∷ restore cur)
    else elim rest [ none ↦ none | some es ↦ some (part ∷ remap new ∷ es) ]

-- `process_ap_mem`: `none` is fuel that ran out, `some none` the return of `-EIO`.
unfoldable pub process_ap_mem : ℕ → ℕ → ℕ → Option (Option (List Event))
process_ap_mem fuel addr len =
    if ltb (u32 (addr + len)) addr
    then some none
    else (let base = window addr in
        let moved = λ (es : List Event). if base == 0 then es else remap base ∷ es in
        elim (ap_loop fuel base addr len) [ none ↦ none | some es ↦ some (some (moved es)) ])

-- `check_ap_addr`; `ram_size`, in MiB, is what `get_ram_size` returns.
unfoldable pub check_ap_addr : ℕ → ℕ → ℕ → ℕ → Bool
check_ap_addr ram_size addr len align =
    if addr % align != 0
    then false
    else if ram_size == 4096
    then true
    else not
        (ltb (u32 (ram_size << 20)) addr || ltb (u32 (ram_size << 20)) (sub32 (u32 (addr + len)) 1))
