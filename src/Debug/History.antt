-- ===== src/Debug/History.antt =====
-- The history of debug.c: what it gives fits in the command, and a command always finds a place.
use mox_boot_builder.Prelude.{
  ℕ, zero, suc, ◌+◌, ◌-◌, ◌≤◌, ◌<◌, ◌≡◌, inl, inr, refl, ◌∙◌, arith, Bool-cases, true, false,
  Option, none, some, sym, ap, ltb, length, take, leb, ◌==◌, length-take,
}
use mox_boot_builder.Strings.{Memory, store}
use mox_boot_builder.Strings.Copy.{length-store, store-outside}
use mox_boot_builder.Debug.Editor.{
  Editor, chars_at, history_find, history_get, save_cmd, show, show_older, history_prev,
  history_next,
}
use mox_boot_builder.Debug.Bounds.{
  IsValid, IsTerminated, IsShown, is_found, chars_at-le, cmd_set-IsValid,
}

history_find-lt :
    (fuel : ℕ) (mem : Memory) (end idx i p : ℕ) (x : ℕ × ℕ)
    → history_find fuel mem end idx i p ≡ some x
    → x.0 < end
unfolding history_find
history_find-lt zero mem end idx i p x h = cc
history_find-lt (suc fuel) mem end idx i p x h =
    let len = length (chars_at (end - p) p mem) in
    elim (Bool-cases (leb end p)) [
      | inl e ↦ cc (rw e at h)
      | inr e ↦ elim (Bool-cases (idx == i)) [
        | inl same ↦
            let here : some (p, len) ≡ some x = rw (e, same) at h in
            let first : p ≡ x.0 = cc in let inside : p < end = ground arith in omega (arith, first)
        | inr other ↦ history_find-lt fuel mem end idx (i + 1) (p + len + 1) x (rw (e, other) at h)
      ]
    ]

history_get-lt :
    (idx : ℕ) (e : Editor) (x : ℕ × ℕ) → history_get idx e ≡ some x → x.0 < e.history_len
unfolding history_get
history_get-lt idx e x h = elim (Bool-cases (leb e.history_cmds idx)) [
  | inl n ↦ cc (rw n at h)
  | inr y ↦
      history_find-lt 2048 e.history e.history_len (e.history_cmds - idx - 1) 0 0 x (rw y at h)
]

-- The characters from a place of the history on fit in the command.
history-chars :
    (n p end : ℕ) (mem : Memory) → IsTerminated mem end → p < end → length (chars_at n p mem) ≤ 127
history-chars n p end mem t h =
    let (q, le, lt, near, z) = t p h in omega (arith, chars_at-le n p q mem le z)

-- A valid editor with another place in the history.
pub at_pos :
    (e : Editor) (k : ℕ)
    → IsValid e
    → IsShown e.history e.history_len e.history_cmds k
    → IsValid (record e { history_pos = k })
at_pos e k v s = record {
  cmd_size = v.cmd_size;
  seq_size = v.seq_size;
  history_size = v.history_size;
  orig_size = v.orig_size;
  pos_in = v.pos_in;
  len_in = v.len_in;
  seq_in = v.seq_in;
  history_in = v.history_in;
  terminated = v.terminated;
  orig_end = v.orig_end;
  shown = s;
  running = v.running;
}

saved-IsValid :
    (e : Editor)
    → IsValid e
    → IsValid
        (record e { orig_cmd = store (take e.cmdlen e.cmd) 0 e.orig_cmd; orig_cmdlen = e.cmdlen })
saved-IsValid e v = record {
  cmd_size = v.cmd_size;
  seq_size = v.seq_size;
  history_size = v.history_size;
  orig_size = length-store (take e.cmdlen e.cmd) 0 e.orig_cmd ∙ v.orig_size;
  pos_in = v.pos_in;
  len_in = v.len_in;
  seq_in = v.seq_in;
  history_in = v.history_in;
  terminated = v.terminated;
  orig_end =
      store-outside (take e.cmdlen e.cmd) 0 127 e.orig_cmd
        (inr (omega (arith, length-take e.cmdlen e.cmd, v.len_in)))
      ∙ v.orig_end;
  shown = v.shown;
  running = v.running;
}

save_cmd-IsValid : (e : Editor) → IsValid e → IsValid (save_cmd e)
save_cmd-IsValid e v = elim (Bool-cases (e.history_pos == 0)) [
  | inl z ↦ rw z (saved-IsValid e v)
  | inr n ↦ rw n v
]

show-IsValid :
    (o : Option (ℕ × ℕ)) (e : Editor)
    → IsValid e
    → ((x : ℕ × ℕ) → o ≡ some x → x.0 < e.history_len)
    → is_found o ≡ true
    → IsValid (show o e)
show-IsValid none e v h found = absurd (ground arith)
show-IsValid (some x) e v h found =
    cmd_set-IsValid (chars_at (2048 - x.0) x.0 e.history) x.1 e v
      (history-chars (2048 - x.0) x.0 e.history_len e.history v.terminated (h x refl))

-- What `history_get` gives, as `IsShown` says it.
history_get-found :
    (idx : ℕ) (e : Editor)
    → (leb e.history_cmds idx ≡ false)
      × (is_found (history_find 2048 e.history e.history_len (e.history_cmds - idx - 1) 0 0) ≡ true)
    → is_found (history_get idx e) ≡ true
unfolding history_get
history_get-found idx e (there, found) = rw there found

found_history_get :
    (idx : ℕ) (e : Editor)
    → is_found (history_get idx e) ≡ true
    → (leb e.history_cmds idx ≡ false)
      × (is_found (history_find 2048 e.history e.history_len (e.history_cmds - idx - 1) 0 0) ≡ true)
unfolding history_get
found_history_get idx e h = elim (Bool-cases (leb e.history_cmds idx)) [
  | inl out ↦ absurd (ground (arith, rw out at h))
  | inr there ↦ (there, rw there at h)
]

-- One place further back.
shown_older :
    (e : Editor)
    → IsValid e
    → is_found (history_get e.history_pos e) ≡ true
    → IsShown e.history e.history_len e.history_cmds (e.history_pos + 1)
shown_older e v found j h = elim (Bool-cases (ltb j e.history_pos)) [
  | inl before ↦ v.shown j (ground arith)
  | inr last ↦ let here : j ≡ e.history_pos = ground arith in found_history_get j e (rw here found)
]

show_older-IsValid :
    (o : Option (ℕ × ℕ)) (e : Editor)
    → IsValid e
    → ((x : ℕ × ℕ) → o ≡ some x → x.0 < e.history_len)
    → o ≡ history_get e.history_pos e
    → IsValid (show_older o e)
show_older-IsValid none e v h same = v
show_older-IsValid (some x) e v h same =
    show-IsValid (some x) (record e { history_pos = e.history_pos + 1 })
      (at_pos e (e.history_pos + 1) v (shown_older e v (ap is_found (sym same)))) h refl

pub history_prev-IsValid : (e : Editor) → IsValid e → IsValid (history_prev e)
unfolding history_prev
history_prev-IsValid e v =
    let saved = save_cmd e in
    show_older-IsValid (history_get saved.history_pos saved) saved (save_cmd-IsValid e v)
      (λ x p. history_get-lt saved.history_pos saved x p) refl

pub history_next-IsValid : (e : Editor) → IsValid e → IsValid (history_next e)
unfolding history_next
history_next-IsValid e v = elim (Bool-cases (e.history_pos == 0)) [
  | inl z ↦ rw z v
  | inr n ↦ elim (Bool-cases (e.history_pos == 1)) [
    | inl z1 ↦
        rw (n, z1)
          (cmd_set-IsValid (chars_at 128 0 e.orig_cmd) e.orig_cmdlen (record e { history_pos = 0 })
            (at_pos e 0 v λ j h. absurd (omega arith))
            (chars_at-le 128 0 127 e.orig_cmd (omega arith) v.orig_end))
    | inr n1 ↦
        rw (n, n1)
          (show-IsValid (history_get (e.history_pos - 2) e)
            (record e { history_pos = e.history_pos - 1 })
            (at_pos e (e.history_pos - 1) v λ j h. v.shown j (omega arith))
            (λ x p. history_get-lt (e.history_pos - 2) e x p)
            (history_get-found (e.history_pos - 2) e (v.shown (e.history_pos - 2) (ground arith))))
  ]
]
