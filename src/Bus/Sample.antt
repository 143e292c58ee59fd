-- ===== src/Bus/Sample.antt =====
-- Devices for tests.
use mox_boot_builder.Prelude.{ℕ, ◌+◌, ◌^◌, Bool, true, ◌&&◌, ◌==◌, if◌then◌else◌}
use mox_boot_builder.Bus.{Bus}

-- Every register reads as 0: the host has read all messages.
abbrev pub quiet : Bus (Unit {0})
quiet = record { read = λ addr s. (0, s); write = λ v addr s. s; pause = λ n s. s }

-- A fuse block that is always ready and holds `word` in every row. Its state is the lock bit that
-- the rows show, which is set once programming has been disabled after a write.
abbrev pub fuses : ℕ → Bus Bool
fuses word = record {
  read = λ addr s.
      if addr == 0x40003440
      then (2 ^ 31 + 2 ^ 29 + (if s then 16 else 0), s)
      else if addr == 0x40003438
      then (word, s)
      else (0, s);
  write = λ v addr s. if addr == 0x400037f4 && v == 0 then true else s;
  pause = λ n s. s;
}

-- Every register reads as `word`.
abbrev pub constant : ℕ → Bus (Unit {0})
constant word = record { read = λ addr s. (word, s); write = λ v addr s. s; pause = λ n s. s }
