-- ===== src/Debug/Editor.antt =====
-- The line editor of debug.c with its history, without what it echoes.
use mox_boot_builder.Prelude.{
  ℕ, zero, suc, ◌+◌, ◌-◌, Bool, true, false, Option, none, some, List, [], ◌∷◌, length, take,
  replicate, get_or, set, min, ltb, leb, ◌==◌, if◌then◌else◌,
}
use mox_boot_builder.Strings.{Memory, is_same, memmove, store, strcmp}

-- The static variables of debug.c.
pub record Editor : Type 0 where
  pub cmd : Memory
  pub cmdlen : ℕ
  pub cmdpos : ℕ
  pub escape_seq : Memory
  pub escape_seq_len : ℕ
  pub escape_state : ℕ
  pub history : Memory
  pub history_len : ℕ
  pub history_cmds : ℕ
  pub history_pos : ℕ
  pub orig_cmd : Memory
  pub orig_cmdlen : ℕ
  -- A command was taken from a null pointer.
  pub faulted : Bool

abbrev pub start : Editor
start = record {
  cmd = replicate 128 0;
  cmdlen = 0;
  cmdpos = 0;
  escape_seq = replicate 32 0;
  escape_seq_len = 0;
  escape_state = 0;
  history = replicate 2048 0;
  history_len = 0;
  history_cmds = 0;
  history_pos = 0;
  orig_cmd = replicate 128 0;
  orig_cmdlen = 0;
  faulted = false;
}

-- The characters at a place up to a NUL, at most `n`: what `strnlen` and `strlen` count.
unfoldable pub chars_at : ℕ → ℕ → Memory → List ℕ
chars_at zero i mem = []
chars_at (suc n) i mem =
    let rest = chars_at n (i + 1) mem in if get_or mem i 0 == 0 then [] else get_or mem i 0 ∷ rest

-- `for (i = cmdlen; i > cmdpos; --i) cmd[i] = cmd[i-1];` with `n` rounds left.
unfoldable pub shift_up : ℕ → ℕ → Memory → Memory
shift_up zero i mem = mem
shift_up (suc n) i mem = shift_up n (i - 1) (set mem i (get_or mem (i - 1) 0))

unfoldable pub cmd_append : ℕ → Editor → Editor
cmd_append c e = if leb 127 e.cmdlen then e else record e {
  cmd = set (shift_up (e.cmdlen - e.cmdpos) e.cmdlen e.cmd) e.cmdpos c;
  cmdpos = e.cmdpos + 1;
  cmdlen = e.cmdlen + 1;
}

-- `for (i = cmdpos; i < cmdlen-1; ++i) cmd[i] = cmd[i+1];`
unfoldable pub shift_down : ℕ → ℕ → Memory → Memory
shift_down zero i mem = mem
shift_down (suc n) i mem = shift_down n (i + 1) (set mem i (get_or mem (i + 1) 0))

unfoldable pub cmd_del : Editor → Editor
cmd_del e = if e.cmdpos == e.cmdlen then e else record e {
  cmd = shift_down (e.cmdlen - 1 - e.cmdpos) e.cmdpos e.cmd;
  cmdlen = e.cmdlen - 1;
}

unfoldable pub escape_seq_append : ℕ → Editor → Editor
escape_seq_append c e = if leb 31 e.escape_seq_len then e else record e {
  escape_seq = set e.escape_seq e.escape_seq_len c;
  escape_seq_len = e.escape_seq_len + 1;
}

-- `escape_seq_error`, and the end of `escape_seq_process`
abbrev pub escape_end : Editor → Editor
escape_end e = record e { escape_state = 0; escape_seq_len = 0 }

-- The loop of `history_get`: the command with number `idx` from the oldest on, where it begins and
-- its length. `i` is the number of the one at `p`, and `fuel` is for the commands.
unfoldable pub history_find : ℕ → Memory → ℕ → ℕ → ℕ → ℕ → Option (ℕ × ℕ)
history_find zero mem end idx i p = none
history_find (suc fuel) mem end idx i p =
    let len = length (chars_at (end - p) p mem) in
    let rest = history_find fuel mem end idx (i + 1) (p + len + 1) in
    if leb end p then none else if idx == i then some (p, len) else rest

-- `history_get`; with `history_cmds` commands or fewer, the number of the command is negative.
unfoldable pub history_get : ℕ → Editor → Option (ℕ × ℕ)
history_get idx e =
    if leb e.history_cmds idx
    then none
    else history_find 2048 e.history e.history_len (e.history_cmds - idx - 1) 0 0

-- `prev && !strcmp(cmd, prev)`
abbrev pub is_last : Editor → Bool
is_last e = elim (history_get 0 e) [
  | none ↦ false
  | some x ↦ is_same (strcmp (chars_at 128 0 e.cmd) (chars_at (2048 - x.0) x.0 e.history))
]

-- The loop of `history_add` that drops the oldest commands, with fuel for them.
unfoldable pub drop_oldest : ℕ → ℕ → Editor → Editor
drop_oldest zero need e = e
drop_oldest (suc fuel) need e =
    let len = length (chars_at 2048 0 e.history) + 1 in
    let left = e.history_len - len in
    let rest = drop_oldest fuel need (record e {
      history = memmove left 0 len e.history;
      history_len = left;
      history_cmds = e.history_cmds - 1;
    }) in
    if ltb (2048 - e.history_len) need then rest else e

abbrev pub put_last : Editor → Editor
put_last e = record e {
  history = store (take (e.cmdlen + 1) e.cmd) e.history_len e.history;
  history_len = e.history_len + (e.cmdlen + 1);
  history_cmds = e.history_cmds + 1;
}

unfoldable pub history_add : Editor → Editor
history_add e =
    if e.cmdlen == 0
    then e
    else if is_last e
    then e
    else put_last (drop_oldest 2048 (e.cmdlen + 1) e)

-- `cmd_set` to the characters of another array.
unfoldable pub cmd_set : List ℕ → ℕ → Editor → Editor
cmd_set chars newpos e = record e {
  cmd = set (store chars 0 e.cmd) (length chars) 0;
  cmdlen = length chars;
  cmdpos = min newpos (length chars);
}

-- `cmd_set(cmd, newpos)`
unfoldable pub cmd_move : ℕ → Editor → Editor
cmd_move newpos e = record e { cmd = set e.cmd e.cmdlen 0; cmdpos = min newpos e.cmdlen }

-- The copy of the command that is edited, made when the history is entered.
abbrev pub save_cmd : Editor → Editor
save_cmd e =
    if e.history_pos == 0
    then record e { orig_cmd = store (take e.cmdlen e.cmd) 0 e.orig_cmd; orig_cmdlen = e.cmdlen }
    else e

abbrev pub show : Option (ℕ × ℕ) → Editor → Editor
show none e = record e { faulted = true }
show (some x) e = cmd_set (chars_at (2048 - x.0) x.0 e.history) x.1 e

abbrev pub show_older : Option (ℕ × ℕ) → Editor → Editor
show_older none e = e
show_older (some x) e = show (some x) (record e { history_pos = e.history_pos + 1 })

unfoldable pub history_prev : Editor → Editor
history_prev e = let saved = save_cmd e in show_older (history_get saved.history_pos saved) saved

-- `history_next`; without a command at the new place the code reads through a null pointer.
unfoldable pub history_next : Editor → Editor
history_next e =
    if e.history_pos == 0
    then e
    else if e.history_pos == 1
    then cmd_set (chars_at 128 0 e.orig_cmd) e.orig_cmdlen (record e { history_pos = 0 })
    else show (history_get (e.history_pos - 2) e) (record e { history_pos = e.history_pos - 1 })
