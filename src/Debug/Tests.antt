-- ===== src/Debug/Tests.antt =====
-- The debug command line at concrete inputs.
use mox_boot_builder.Prelude.{
  ℕ, ◌≤◌, ◌≡◌, ◌⊎◌, inl, inr, refl, arith, none, some, List, [], ◌∷◌, length, set, replicate,
}
use mox_boot_builder.Debug.Args.{parse_args, words, parse_args-words}
use mox_boot_builder.Debug.Number.{number_of, base_for, plain, number_of-plain}
use mox_boot_builder.Debug.Editor.{
  Editor, start, cmd_append, escape_seq_append, history_prev, history_next, history_get,
  history_find, history_add, cmd_set, chars_at, shift_up, drop_oldest,
}
use mox_boot_builder.Debug.Keys.{consume, consume_normal, debug_process, escape_seq_process, enter}
use mox_boot_builder.Strings.{store, strcmp, memmove}
use mox_boot_builder.Debug.Bounds.{IsValid, with_cmd}
use mox_boot_builder.Debug.Process.{debug_process-IsValid, start-IsValid}
use mox_boot_builder.Debug.Text.{text, insert_at, cmd_append-insert_at}
use mox_boot_builder.Debug.Erase.{consume-consume}

-- `md 10`, with spaces before, between and behind.
abbrev command : List ℕ
command = b' ' ∷ b'm' ∷ b'd' ∷ b' ' ∷ b' ' ∷ b'1' ∷ b'0' ∷ b' ' ∷ []

two_words : parse_args command ≡ some ((b'm' ∷ b'd' ∷ []) ∷ (b'1' ∷ b'0' ∷ []) ∷ [])
unfolding parse_args
two_words = refl

parse_args-words_example :
    ((parse_args command ≡ none) × (32 ≤ length (words command)))
    ⊎ ((parse_args command ≡ some (words command)) × (length (words command) ≤ 32))
parse_args-words_example = parse_args-words command

number_of-plain_example : number_of (base_for b'x') (plain b'x' 48879) ≡ some 48879
number_of-plain_example = number_of-plain b'x' 48879 (inr (inl refl)) (omega arith)

-- `abc` and return, then `xyz` and the keys up, down and control-C, then `a` and up and down.
abbrev typed : List ℕ
typed =
    b'a' ∷ b'b' ∷ b'c' ∷ 13 ∷ b'x' ∷ b'y' ∷ b'z' ∷ 27 ∷ b'[' ∷ b'A' ∷ 27 ∷ b'[' ∷ b'B' ∷ 3 ∷ b'a'
    ∷ 27 ∷ b'[' ∷ b'A' ∷ 27 ∷ b'[' ∷ b'B' ∷ []

-- What was left of the longer command that had been saved comes back behind `a`.
stale : text (debug_process typed start) ≡ b'a' ∷ b'y' ∷ b'z' ∷ []
unfolding debug_process consume consume_normal cmd_append shift_up enter history_add drop_oldest
    escape_seq_append escape_seq_process history_prev history_next history_get history_find cmd_set
    chars_at store strcmp memmove
stale = refl

debug_process-IsValid_example : IsValid (debug_process typed start)
debug_process-IsValid_example = debug_process-IsValid typed start start-IsValid

-- `ac` with the cursor at the `c`.
abbrev ac : Editor
ac = record start { cmd = set (set (replicate 128 0) 0 b'a') 1 b'c'; cmdlen = 2; cmdpos = 1 }

ac-IsValid : IsValid ac
ac-IsValid = with_cmd start ac.cmd 2 1 start-IsValid refl (omega arith) (omega arith)

cmd_append-insert_at_example :
    (text (cmd_append b'b' ac) ≡ insert_at 1 b'b' (b'a' ∷ b'c' ∷ []))
    × ((cmd_append b'b' ac).cmdpos ≡ 2)
cmd_append-insert_at_example = cmd_append-insert_at b'b' ac ac-IsValid (omega arith)

consume-consume_example :
    (text (consume 127 (consume b'b' ac)) ≡ b'a' ∷ b'c' ∷ [])
    × ((consume 127 (consume b'b' ac)).cmdpos ≡ 1)
consume-consume_example =
    consume-consume b'b' ac ac-IsValid refl (omega arith) (omega arith) (omega arith)
