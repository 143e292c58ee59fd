-- ===== src/Debug/Keys.antt =====
-- What the characters do that arrive at the line editor of debug.c, and the sequences that begin with
-- an escape.
use mox_boot_builder.Prelude.{
  ℕ, ◌+◌, ◌-◌, Bool, not, ◌&&◌, ◌||◌, Option, none, some, List, [], ◌∷◌, get_or, set, ltb, leb,
  ◌==◌, if◌then◌else◌,
}
use mox_boot_builder.Debug.Args.{parse_args}
use mox_boot_builder.Debug.Editor.{
  Editor, cmd_append, cmd_del, escape_seq_append, escape_end, history_prev, history_next,
  history_add, cmd_move, chars_at,
}

-- The keys of `escape_seq_process`.
abbrev pub escape_key : ℕ → ℕ → Editor → Editor
escape_key c d e =
    if c == b'D'
    then record e { cmdpos = e.cmdpos - 1 }
    else if c == b'C'
    then (if ltb e.cmdpos e.cmdlen then record e { cmdpos = e.cmdpos + 1 } else e)
    else if c == b'A'
    then history_prev e
    else if c == b'B'
    then history_next e
    else if c == b'3' && d == b'~'
    then cmd_del e
    else e

unfoldable pub escape_seq_process : Editor → Editor
escape_seq_process e =
    let ended = record e { escape_seq = set e.escape_seq e.escape_seq_len 0 } in
    if leb 31 e.escape_seq_len
    then escape_end e
    else escape_end (escape_key (get_or ended.escape_seq 0 0) (get_or ended.escape_seq 1 0) ended)

abbrev pub clear : Editor → Editor
clear e = record e { cmdlen = 0; cmdpos = 0; history_pos = 0 }

-- What `cmd_exec` runs: the words of the command, if there are any and not too many.
unfoldable pub cmd_words : Editor → Option (List (List ℕ))
cmd_words e = elim (parse_args (chars_at 128 0 e.cmd)) [
  | none ↦ none
  | some [] ↦ none
  | some (w ∷ ws) ↦ some (w ∷ ws)
]

-- Return: the NUL is put behind the command, and `cmd_exec`.
unfoldable pub enter : Editor → Editor
enter e = clear (history_add (record e { cmd = set e.cmd e.cmdlen 0 }))

unfoldable pub consume_normal : ℕ → Editor → Editor
consume_normal c e =
    if c == 1
    then cmd_move 0 e
    else if c == 3
    then clear e
    else if c == 5
    then cmd_move e.cmdlen e
    else if c == 8 || c == 127
    then (if e.cmdpos == 0 then e else cmd_del (record e { cmdpos = e.cmdpos - 1 }))
    else if c == 13 || c == 10
    then enter e
    else if c == 27
    then record e { escape_state = 1 }
    else if leb 32 c && leb c 126
    then cmd_append c e
    else e

abbrev pub between : ℕ → ℕ → ℕ → Bool
between c l h = leb l c && leb c h

-- A character of an escape sequence behind its introducer.
abbrev pub escape_two : ℕ → Editor → Editor
escape_two c e =
    if not (between c 0x20 0x7e)
    then escape_end e
    else if between c 0x40 0x7e
    then escape_seq_process (escape_seq_append c e)
    else if between c 0x20 0x2f
    then record (escape_seq_append c e) { escape_state = 3 }
    else escape_seq_append c e

abbrev pub escape_three : ℕ → Editor → Editor
escape_three c e =
    if between c 0x40 0x7e
    then escape_seq_process (escape_seq_append c e)
    else if between c 0x20 0x2f
    then escape_seq_append c e
    else escape_end e

-- A round of `debug_process`.
unfoldable pub consume : ℕ → Editor → Editor
consume c e =
    if e.escape_state == 1 && between c 0x40 0x5f
    then record e { escape_state = (if c == b'[' then 2 else 0) }
    else if e.escape_state == 2
    then escape_two c e
    else if e.escape_state == 3
    then escape_three c e
    else consume_normal c e

-- `debug_process` on the characters that have arrived.
unfoldable pub debug_process : List ℕ → Editor → Editor
debug_process [] e = e
debug_process (c ∷ cs) e = debug_process cs (consume c e)
