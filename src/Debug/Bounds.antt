-- ===== src/Debug/Bounds.antt =====
-- The arrays of debug.c are never overrun.
use mox_boot_builder.Prelude.{
  ℕ, zero, suc, ◌+◌, ◌-◌, ◌≤◌, ◌<◌, ◌≡◌, ◌⊎◌, inl, inr, refl, ap, ◌∙◌, arith, Bool-cases, Bool,
  true, false, Option, none, some, List, length, get_or, set, min, leb, ◌==◌, length-set,
}
use mox_boot_builder.Strings.{Memory, store}
use mox_boot_builder.Strings.Copy.{length-store}
use mox_boot_builder.Debug.Editor.{
  Editor, chars_at, history_find, shift_up, shift_down, cmd_append, cmd_del, cmd_set, cmd_move,
}

-- Each place of the history has a NUL at most 127 places behind it, inside the history.
abbrev pub IsTerminated : Memory → ℕ → Type 0
IsTerminated mem end =
    (p : ℕ) → p < end → (q : ℕ) × (p ≤ q) × (q < end) × (q ≤ p + 127) × (get_or mem q 0 ≡ 0)

abbrev pub is_found : Option (ℕ × ℕ) → Bool
is_found none = false
is_found (some x) = true

-- The commands that have been passed on the way back into the history are there.
abbrev pub IsShown : Memory → ℕ → ℕ → ℕ → Type 0
IsShown mem end cmds pos =
    (j : ℕ)
    → j < pos
    → (leb cmds j ≡ false) × (is_found (history_find 2048 mem end (cmds - j - 1) 0 0) ≡ true)

pub record IsValid (e : Editor) : Type 0 where
  pub cmd_size : length e.cmd ≡ 128
  pub seq_size : length e.escape_seq ≡ 32
  pub history_size : length e.history ≡ 2048
  pub orig_size : length e.orig_cmd ≡ 128
  pub pos_in : e.cmdpos ≤ e.cmdlen
  pub len_in : e.cmdlen ≤ 127
  pub seq_in : e.escape_seq_len ≤ 31
  pub history_in : e.history_len ≤ 2048
  pub terminated : IsTerminated e.history e.history_len
  pub orig_end : get_or e.orig_cmd 127 0 ≡ 0
  pub shown : IsShown e.history e.history_len e.history_cmds e.history_pos
  pub running : e.faulted ≡ false

-- A NUL ends the characters.
pub chars_at-le :
    (n i q : ℕ) (mem : Memory) → i ≤ q → get_or mem q 0 ≡ 0 → length (chars_at n i mem) ≤ q - i
unfolding chars_at
chars_at-le zero i q mem h z = omega arith
chars_at-le (suc n) i q mem h z = elim (Bool-cases (get_or mem i 0 == 0)) [
  | inl e ↦ rw e (omega arith)
  | inr e ↦ rw e (elim (place i q h) [
    | inl same ↦ absurd (differ (get_or mem i 0) e (ap (λ k. get_or mem k 0) same ∙ z))
    | inr more ↦ omega (arith, chars_at-le n (i + 1) q mem more z)
  ])
]
  where
    place : (i q : ℕ) → i ≤ q → (i ≡ q) ⊎ (i + 1 ≤ q)
    place i q h = omega arith

    differ : (x : ℕ) → (x == 0) ≡ false → x ≡ 0 → ⊥
    differ x e z = ground arith

pub length-shift_up : (n i : ℕ) (mem : Memory) → length (shift_up n i mem) ≡ length mem
unfolding shift_up
length-shift_up zero i mem = refl
length-shift_up (suc n) i mem =
    length-shift_up n (i - 1) (set mem i (get_or mem (i - 1) 0))
    ∙ length-set mem i (get_or mem (i - 1) 0)

pub length-shift_down : (n i : ℕ) (mem : Memory) → length (shift_down n i mem) ≡ length mem
unfolding shift_down
length-shift_down zero i mem = refl
length-shift_down (suc n) i mem =
    length-shift_down n (i + 1) (set mem i (get_or mem (i + 1) 0))
    ∙ length-set mem i (get_or mem (i + 1) 0)

-- A valid editor with another command.
pub with_cmd :
    (e : Editor) (mem : Memory) (n p : ℕ)
    → IsValid e
    → length mem ≡ 128
    → p ≤ n
    → n ≤ 127
    → IsValid (record e { cmd = mem; cmdlen = n; cmdpos = p })
with_cmd e mem n p v size a b = record {
  cmd_size = size;
  seq_size = v.seq_size;
  history_size = v.history_size;
  orig_size = v.orig_size;
  pos_in = a;
  len_in = b;
  seq_in = v.seq_in;
  history_in = v.history_in;
  terminated = v.terminated;
  orig_end = v.orig_end;
  shown = v.shown;
  running = v.running;
}

pub cmd_append-IsValid : (c : ℕ) (e : Editor) → IsValid e → IsValid (cmd_append c e)
unfolding cmd_append
cmd_append-IsValid c e v =
    let up = shift_up (e.cmdlen - e.cmdpos) e.cmdlen e.cmd in
    elim (Bool-cases (leb 127 e.cmdlen)) [
      | inl full ↦ rw full v
      | inr room ↦ rw room (
          with_cmd e (set up e.cmdpos c) (e.cmdlen + 1) (e.cmdpos + 1) v
            (length-set up e.cmdpos c
              ∙ length-shift_up (e.cmdlen - e.cmdpos) e.cmdlen e.cmd
              ∙ v.cmd_size)
            (omega (arith, v.pos_in)) (ground arith))
    ]

pub cmd_del-IsValid : (e : Editor) → IsValid e → IsValid (cmd_del e)
unfolding cmd_del
cmd_del-IsValid e v =
    let n = e.cmdlen - 1 - e.cmdpos in
    elim (Bool-cases (e.cmdpos == e.cmdlen)) [
      | inl full ↦ rw full v
      | inr room ↦ rw room (
          with_cmd e (shift_down n e.cmdpos e.cmd) (e.cmdlen - 1) e.cmdpos v
            (length-shift_down n e.cmdpos e.cmd ∙ v.cmd_size) (ground arith)
            (omega (arith, v.len_in)))
    ]

pub cmd_move-IsValid : (p : ℕ) (e : Editor) → IsValid e → IsValid (cmd_move p e)
unfolding cmd_move
cmd_move-IsValid p e v =
    with_cmd e (set e.cmd e.cmdlen 0) e.cmdlen (min p e.cmdlen) v
      (length-set e.cmd e.cmdlen 0 ∙ v.cmd_size) (omega arith) v.len_in

pub cmd_set-IsValid :
    (chars : List ℕ) (p : ℕ) (e : Editor)
    → IsValid e
    → length chars ≤ 127
    → IsValid (cmd_set chars p e)
unfolding cmd_set
cmd_set-IsValid chars p e v h =
    with_cmd e (set (store chars 0 e.cmd) (length chars) 0) (length chars) (min p (length chars)) v
      (length-set (store chars 0 e.cmd) (length chars) 0 ∙ length-store chars 0 e.cmd ∙ v.cmd_size)
      (omega arith) h
