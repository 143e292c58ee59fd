-- ===== src/UbootEnv.antt =====
-- wtmi/uboot-env.c: the environment of U-Boot in the SPI flash, read through a buffer of 0x2000 bytes.
-- The flash (spi_nor_read of spi.c) is a parameter. A `=` that the code overwrites in the buffer is
-- not read again before the buffer is loaded anew, so it is left as it is. Loops have fuel.
pub mod Ends
mod Tests
use mox_boot_builder.Prelude.{
  ℕ, zero, suc, ◌+◌, ◌-◌, Bool, true, false, not, ◌&&◌, ◌||◌, Option, none, some, List, [], ◌∷◌,
  length, take, drop, get_or, min, leb, ltb, ◌==◌, if◌then◌else◌,
}
use mox_boot_builder.Bits.{not32}
use mox_boot_builder.Strings.{is_same, memchr, strcmp}
use mox_boot_builder.Crc.{crc32, load_word}

abbrev pub uboot_env_nor_offset : ℕ
uboot_env_nor_offset = 0x180000

abbrev pub uboot_env_nor_size : ℕ
uboot_env_nor_size = 0x10000

-- The bytes at a place of the flash, as many as asked for.
abbrev pub Flash : Type 0
Flash = ℕ → ℕ → List ℕ

-- `MIN(sizeof(uboot_env_buffer), UBOOT_ENV_NOR_SIZE - pos)`
abbrev pub chunk_len : ℕ → ℕ
chunk_len pos = min 0x2000 (uboot_env_nor_size - pos)

abbrev pub chunk : Flash → ℕ → List ℕ
chunk spi_nor_read pos = spi_nor_read (uboot_env_nor_offset + pos) (chunk_len pos)

-- The loop of `uboot_env_check_crc`, over the address of the buffer; `none` is fuel that ran out.
unfoldable pub crc_loop : ℕ → Flash → ℕ → ℕ → ℕ → Option ℕ
crc_loop zero spi_nor_read buf_addr crc pos = none
crc_loop (suc fuel) spi_nor_read buf_addr crc pos =
    let next : Option ℕ = elim (crc32 buf_addr crc (chunk_len pos) (chunk spi_nor_read pos)) [
      | none ↦ none
      | some crc1 ↦ crc_loop fuel spi_nor_read buf_addr crc1 (pos + chunk_len pos)
    ] in
    if leb uboot_env_nor_size pos then some crc else next

unfoldable pub uboot_env_check_crc : Flash → ℕ → Option Bool
uboot_env_check_crc spi_nor_read buf_addr =
    let stored = spi_nor_read uboot_env_nor_offset 4 in
    elim (crc_loop 10 spi_nor_read buf_addr 0xffffffff 4) [
      | none ↦ none
      | some crc ↦ some (
          not32 crc
          == load_word (get_or stored 0 0) (get_or stored 1 0) (get_or stored 2 0)
              (get_or stored 3 0))
    ]

-- The variables of `uboot_env_for_each`: `place` is `p - buf`, `data` what the callback keeps.
pub record Scan (D : Type 0) : Type 0 where
  pub place : ℕ
  pub ignore_first : Bool
  pub ignored : ℕ
  pub data_kept : D

-- The place of the first NUL from `p` on.
unfoldable pub find_nul : List ℕ → ℕ → Option ℕ
find_nul buf p = elim (memchr (length buf - p) 0 (drop p buf)) [
  | none ↦ none
  | some k ↦ some (p + k)
]

-- The callback: a name, a value and the data; false ends the loop.
abbrev pub Callback : Type 0 → Type 0
Callback D = List ℕ → List ℕ → D → D × Bool

module _ {D : Type 0} (cb : Callback D) where
  -- What is done with the text of a variable, and whether to go on.
  abbrev pub visit : List ℕ → Scan D → Scan D × Bool
  visit line sc =
      if sc.ignore_first
      then (record sc { ignore_first = false }, true)
      else elim (memchr (length line) b'=' line) [
        | none ↦ (record sc { ignored = sc.ignored + 1 }, true)
        | some q ↦
            let (d, go) = cb (take q line) (drop (q + 1) line) sc.data_kept in
            (record sc { data_kept = d }, go)
      ]

  -- `while (z)`; with false, the callback has ended it.
  unfoldable pub vars_loop : ℕ → List ℕ → Option ℕ → Scan D → Option (Scan D × Bool)
  vars_loop zero buf z sc = none
  vars_loop (suc fuel) buf none sc = some (sc, true)
  vars_loop (suc fuel) buf (some z) sc =
      let (seen, go) = visit (take (z - sc.place) (drop sc.place buf)) sc in
      let moved = record seen { place = z + 1 } in
      let next = vars_loop fuel buf (find_nul buf (z + 1)) moved in
      if not go
      then some (seen, false)
      else if z + 1 == length buf || get_or buf (z + 1) 0 == 0
      then some (moved, true)
      else next

  -- `!ignore_first && p == z`
  abbrev pub is_empty : Bool → Option ℕ → Bool
  is_empty ignore_first none = false
  is_empty ignore_first (some z) = not ignore_first && z == 0

  abbrev pub load_scan : Bool → ℕ → D → Scan D
  load_scan ignore_first ignored d = record {
    place = 0;
    ignore_first = ignore_first;
    ignored = ignored;
    data_kept = d;
  }

  -- What follows the variables of a buffer: the loop goes on behind the buffer, where a variable
  -- that does not fit in it is missed, or where the last variable began.
  abbrev pub after_vars :
      (missed more : Scan D → Option (ℕ × D)) → List ℕ → Option (Scan D × Bool) → Option (ℕ × D)
  after_vars missed more buf none = none
  after_vars missed more buf (some (sc, go)) =
      if not go
      then some (sc.ignored, sc.data_kept)
      else if ltb sc.place (length buf) && get_or buf sc.place 0 == 0
      then some (sc.ignored, sc.data_kept)
      else if sc.place == 0
      then missed sc
      else more sc

  -- `while (pos < UBOOT_ENV_NOR_SIZE)`
  unfoldable pub env_loop : ℕ → Flash → ℕ → Bool → ℕ → D → Option (ℕ × D)
  env_loop zero spi_nor_read pos ignore_first ignored d = none
  env_loop (suc fuel) spi_nor_read pos ignore_first ignored d =
      let buf = chunk spi_nor_read pos in
      let z = find_nul buf 0 in
      let rest =
        after_vars
          (λ sc.
            env_loop fuel spi_nor_read (pos + chunk_len pos) true (sc.ignored + 1) sc.data_kept)
          (λ sc.
            env_loop fuel spi_nor_read (pos + sc.place) sc.ignore_first sc.ignored sc.data_kept)
          buf (vars_loop (length buf + 1) buf z (load_scan ignore_first ignored d)) in
      if leb uboot_env_nor_size pos
      then some (ignored, d)
      else if is_empty ignore_first z
      then some (ignored, d)
      else rest

  -- The number of variables that were ignored; for a checksum that is wrong, `none` inside is -1.
  unfoldable pub uboot_env_for_each : Flash → ℕ → D → Option (Option ℕ × D)
  uboot_env_for_each spi_nor_read buf_addr d = elim (uboot_env_check_crc spi_nor_read buf_addr) [
    | none ↦ none
    | some false ↦ some (none, d)
    | some true ↦ elim (env_loop 0x10000 spi_nor_read 4 false 0 d) [
      | none ↦ none
      | some (ignored, d1) ↦ some (some ignored, d1)
    ]
  ]

-- The data of the search is `find.val`.
unfoldable pub find_one_env : List ℕ → Callback (Option (List ℕ))
find_one_env name var val d = if is_same (strcmp var name) then (some val, false) else (d, true)

unfoldable pub uboot_env_get : Flash → ℕ → List ℕ → Option (Option (List ℕ))
uboot_env_get spi_nor_read buf_addr var =
    elim (uboot_env_for_each (find_one_env var) spi_nor_read buf_addr none) [
      | none ↦ none
      | some (none, val) ↦ some none
      | some (some ignored, val) ↦ some val
    ]
