-- ===== src/Commands/ApMem/Covers.antt =====
-- `process_ap_mem` of main.c hands every byte of the region to its callback, in order.
use mox_boot_builder.Prelude.{
  ℕ, zero, suc, ◌+◌, ◌-◌, ◌*◌, ◌%◌, ◌^◌, ◌<◌, ◌≤◌, ◌≡◌, refl, arith, true, List, [], ◌∷◌, some,
}
use mox_boot_builder.Commands.ApMem.{Event, remap, chunk, ap_loop, process_ap_mem, check_ap_addr}

-- With the window at `w`, the events hand over the `n` bytes from address `a` on, each part
-- inside the window of its time, and leave the window at 0.
pub Covers : ℕ → ℕ → ℕ → List Event → Type 0
Covers w a n [] = (n ≡ 0) × (w ≡ 0)
Covers w a n (remap b ∷ es) = (b % 2 ^ 30 ≡ 0) × Covers b a n es
Covers w a n (chunk p k ∷ es) =
    (p ≡ 0x60000000 + (a - w))
    × (w ≤ a)
    × (a + k ≤ w + 2 ^ 30)
    × (0 < k)
    × (k ≤ n)
    × Covers w (a + k) (n - k) es

-- A region of length 0 at the start of a window other than the first: the callback is called on
-- 3 GiB, although it has nothing to do.
pub process_ap_mem-zero_length :
    (k : ℕ)
    → 0 < k
    → k < 4
    → (es : List Event) × (process_ap_mem 2 (k * 2 ^ 30) 0
        ≡ some (some (remap (k * 2 ^ 30) ∷ chunk 0x60000000 0xc0000000 ∷ es)))
unfolding process_ap_mem ap_loop
process_ap_mem-zero_length zero h lt = absurd (omega arith)
process_ap_mem-zero_length (suc zero) h lt = (remap 0 ∷ chunk 0x60000000 0x40000000 ∷ [], refl)
process_ap_mem-zero_length (suc (suc zero)) h lt =
    (remap 0x40000000 ∷ chunk 0x60000000 0x40000000 ∷ remap 0 ∷ [], refl)
process_ap_mem-zero_length (suc (suc (suc zero))) h lt =
    (remap 0x80000000 ∷ chunk 0x60000000 0x40000000 ∷ remap 0 ∷ [], refl)
process_ap_mem-zero_length (suc (suc (suc (suc k)))) h lt = absurd (omega arith)

-- With less than 2 GiB of RAM the check accepts the one byte just behind the end of the RAM.
pub check_ap_addr-one_past :
    (ram_size : ℕ) → ram_size < 2048 → check_ap_addr ram_size (ram_size * 2 ^ 20) 1 4 ≡ true
unfolding check_ap_addr
check_ap_addr-one_past ram_size h = ground arith
