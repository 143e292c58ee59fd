-- ===== src/Debug/Process.antt =====
-- Whatever is typed, the arrays of the debug command line of debug.c are not overrun.
use mox_boot_builder.Prelude.{
  ℕ, ◌+◌, ◌-◌, ◌≤◌, ◌≡◌, ◌∙◌, inl, inr, refl, arith, Bool-cases, Bool, true, false, ◌&&◌, ◌||◌, not,
  List, [], ◌∷◌, length, get_or, set, ltb, leb, ◌==◌, if◌then◌else◌, length-set, length-replicate,
}
use mox_boot_builder.Debug.Editor.{
  Editor, start, cmd_append, cmd_del, escape_seq_append, escape_end, cmd_move,
}
use mox_boot_builder.Debug.Keys.{
  clear, between, escape_key, escape_seq_process, enter, consume_normal, escape_two, escape_three,
  consume, debug_process,
}
use mox_boot_builder.Debug.Bounds.{
  IsValid, cmd_append-IsValid, cmd_del-IsValid, cmd_move-IsValid, with_cmd,
}
use mox_boot_builder.Debug.History.{history_prev-IsValid, history_next-IsValid}
use mox_boot_builder.Debug.Adding.{enter-IsValid, clear-IsValid}

-- A branch of a handler.
if-IsValid :
    (b : Bool) (x y : Editor)
    → (b ≡ true → IsValid x)
    → (b ≡ false → IsValid y)
    → IsValid (if b then x else y)
if-IsValid true x y f g = f refl
if-IsValid false x y f g = g refl

-- A valid editor with another escape sequence.
with_seq :
    (e : Editor) (mem : List ℕ) (n k : ℕ)
    → IsValid e
    → length mem ≡ 32
    → n ≤ 31
    → IsValid (record e { escape_seq = mem; escape_seq_len = n; escape_state = k })
with_seq e mem n k v size a = record {
  cmd_size = v.cmd_size;
  seq_size = size;
  history_size = v.history_size;
  orig_size = v.orig_size;
  pos_in = v.pos_in;
  len_in = v.len_in;
  seq_in = a;
  history_in = v.history_in;
  terminated = v.terminated;
  orig_end = v.orig_end;
  shown = v.shown;
  running = v.running;
}

at_state : (e : Editor) (k : ℕ) → IsValid e → IsValid (record e { escape_state = k })
at_state e k v = with_seq e e.escape_seq e.escape_seq_len k v v.seq_size v.seq_in

escape_end-IsValid : (e : Editor) → IsValid e → IsValid (escape_end e)
escape_end-IsValid e v = with_seq e e.escape_seq 0 0 v v.seq_size (omega arith)

escape_seq_append-IsValid : (c : ℕ) (e : Editor) → IsValid e → IsValid (escape_seq_append c e)
unfolding escape_seq_append
escape_seq_append-IsValid c e v =
    if-IsValid (leb 31 e.escape_seq_len) e
      (record e {
        escape_seq = set e.escape_seq e.escape_seq_len c;
        escape_seq_len = e.escape_seq_len + 1;
      })
      (λ _. v)
      (λ room.
        with_seq e (set e.escape_seq e.escape_seq_len c) (e.escape_seq_len + 1) e.escape_state v
          (length-set e.escape_seq e.escape_seq_len c ∙ v.seq_size) (ground arith))

cursor-IsValid : (e : Editor) (p : ℕ) → IsValid e → p ≤ e.cmdlen → IsValid (record e { cmdpos = p })
cursor-IsValid e p v h = with_cmd e e.cmd e.cmdlen p v v.cmd_size h v.len_in

escape_key-IsValid : (c d : ℕ) (e : Editor) → IsValid e → IsValid (escape_key c d e)
escape_key-IsValid c d e v = elim (Bool-cases (c == b'D')) [
  | inl k ↦ rw k (cursor-IsValid e (e.cmdpos - 1) v (omega (arith, v.pos_in)))
  | inr n1 ↦ elim (Bool-cases (c == b'C')) [
    | inl k ↦
        rw (n1, k)
          (if-IsValid (ltb e.cmdpos e.cmdlen) (record e { cmdpos = e.cmdpos + 1 }) e
            (λ h. cursor-IsValid e (e.cmdpos + 1) v (ground arith)) (λ _. v))
    | inr n2 ↦ elim (Bool-cases (c == b'A')) [
      | inl k ↦ rw (n1, n2, k) (history_prev-IsValid e v)
      | inr n3 ↦ elim (Bool-cases (c == b'B')) [
        | inl k ↦ rw (n1, n2, n3, k) (history_next-IsValid e v)
        | inr n4 ↦
            rw (n1, n2, n3, n4)
              (if-IsValid (c == b'3' && d == b'~') (cmd_del e) e (λ _. cmd_del-IsValid e v)
                (λ _. v))
      ]
    ]
  ]
]

escape_seq_process-IsValid : (e : Editor) → IsValid e → IsValid (escape_seq_process e)
unfolding escape_seq_process
escape_seq_process-IsValid e v =
    let ended = record e { escape_seq = set e.escape_seq e.escape_seq_len 0 } in
    let w =
      with_seq e (set e.escape_seq e.escape_seq_len 0) e.escape_seq_len e.escape_state v
        (length-set e.escape_seq e.escape_seq_len 0 ∙ v.seq_size) v.seq_in in
    let c = get_or ended.escape_seq 0 0 in
    let d = get_or ended.escape_seq 1 0 in
    if-IsValid (leb 31 e.escape_seq_len) (escape_end e) (escape_end (escape_key c d ended))
      (λ _. escape_end-IsValid e v)
      (λ _. escape_end-IsValid (escape_key c d ended) (escape_key-IsValid c d ended w))

consume_normal-IsValid : (c : ℕ) (e : Editor) → IsValid e → IsValid (consume_normal c e)
unfolding consume_normal
consume_normal-IsValid c e v =
    let back = record e { cmdpos = e.cmdpos - 1 } in
    let erase = if e.cmdpos == 0 then e else cmd_del back in
    let put = if leb 32 c && leb c 126 then cmd_append c e else e in
    let esc = if c == 27 then record e { escape_state = 1 } else put in
    let ret = if c == 13 || c == 10 then enter e else esc in
    let del = if c == 8 || c == 127 then erase else ret in
    let last = if c == 5 then cmd_move e.cmdlen e else del in
    let stop = if c == 3 then clear e else last in
    if-IsValid (c == 1) (cmd_move 0 e) stop (λ _. cmd_move-IsValid 0 e v)
      (λ _.
        if-IsValid (c == 3) (clear e) last (λ _. clear-IsValid e v)
          (λ _.
            if-IsValid (c == 5) (cmd_move e.cmdlen e) del (λ _. cmd_move-IsValid e.cmdlen e v)
              (λ _.
                if-IsValid (c == 8 || c == 127) erase ret
                  (λ _.
                    if-IsValid (e.cmdpos == 0) e (cmd_del back) (λ _. v)
                      (λ _.
                        cmd_del-IsValid back
                          (cursor-IsValid e (e.cmdpos - 1) v (omega (arith, v.pos_in)))))
                  (λ _.
                    if-IsValid (c == 13 || c == 10) (enter e) esc (λ _. enter-IsValid e v)
                      (λ _.
                        if-IsValid (c == 27) (record e { escape_state = 1 }) put
                          (λ _. at_state e 1 v)
                          (λ _.
                            if-IsValid (leb 32 c && leb c 126) (cmd_append c e) e
                              (λ _. cmd_append-IsValid c e v) (λ _. v)))))))

escape_two-IsValid : (c : ℕ) (e : Editor) → IsValid e → IsValid (escape_two c e)
escape_two-IsValid c e v =
    let more = escape_seq_append c e in
    let w = escape_seq_append-IsValid c e v in
    let wait = if between c 0x20 0x2f then record more { escape_state = 3 } else more in
    let run = if between c 0x40 0x7e then escape_seq_process more else wait in
    if-IsValid (not (between c 0x20 0x7e)) (escape_end e) run (λ _. escape_end-IsValid e v)
      (λ _.
        if-IsValid (between c 0x40 0x7e) (escape_seq_process more) wait
          (λ _. escape_seq_process-IsValid more w)
          (λ _.
            if-IsValid (between c 0x20 0x2f) (record more { escape_state = 3 }) more
              (λ _. at_state more 3 w) (λ _. w)))

escape_three-IsValid : (c : ℕ) (e : Editor) → IsValid e → IsValid (escape_three c e)
escape_three-IsValid c e v =
    let more = escape_seq_append c e in
    let w = escape_seq_append-IsValid c e v in
    let wait = if between c 0x20 0x2f then more else escape_end e in
    if-IsValid (between c 0x40 0x7e) (escape_seq_process more) wait
      (λ _. escape_seq_process-IsValid more w)
      (λ _.
        if-IsValid (between c 0x20 0x2f) more (escape_end e) (λ _. w) (λ _. escape_end-IsValid e v))

consume-IsValid : (c : ℕ) (e : Editor) → IsValid e → IsValid (consume c e)
unfolding consume
consume-IsValid c e v =
    let first = record e { escape_state = (if c == b'[' then 2 else 0) } in
    let third = if e.escape_state == 3 then escape_three c e else consume_normal c e in
    let second = if e.escape_state == 2 then escape_two c e else third in
    if-IsValid (e.escape_state == 1 && between c 0x40 0x5f) first second
      (λ _. at_state e (if c == b'[' then 2 else 0) v)
      (λ _.
        if-IsValid (e.escape_state == 2) (escape_two c e) third (λ _. escape_two-IsValid c e v)
          (λ _.
            if-IsValid (e.escape_state == 3) (escape_three c e) (consume_normal c e)
              (λ _. escape_three-IsValid c e v) (λ _. consume_normal-IsValid c e v)))

-- Whatever characters arrive at a valid editor, it is valid afterwards: the lengths of its arrays
-- are unchanged, the cursor is inside a command that leaves room for its NUL, the escape sequence
-- and the history have not grown past their arrays, and every place in the history has a NUL at
-- most 127 places behind it, so that what is taken from it fits in the command. The place in the
-- history is that of a command which is there, and no command is ever taken from a null pointer.
pub debug_process-IsValid : (cs : List ℕ) (e : Editor) → IsValid e → IsValid (debug_process cs e)
unfolding debug_process
debug_process-IsValid [] e v = v
debug_process-IsValid (c ∷ cs) e v = debug_process-IsValid cs (consume c e) (consume-IsValid c e v)

pub start-IsValid : IsValid start
start-IsValid = record {
  cmd_size = length-replicate {A = ℕ} 128 0;
  seq_size = length-replicate {A = ℕ} 32 0;
  history_size = length-replicate {A = ℕ} 2048 0;
  orig_size = length-replicate {A = ℕ} 128 0;
  pos_in = omega arith;
  len_in = omega arith;
  seq_in = omega arith;
  history_in = omega arith;
  terminated = λ p h. absurd (omega arith);
  orig_end = refl;
  shown = λ j h. absurd (omega arith);
  running = refl;
}
