-- ===== src/Debug/Adding.antt =====
-- The history of debug.c when a command is added: the oldest ones give way.
use mox_boot_builder.Prelude.{
  ℕ, zero, suc, ◌+◌, ◌-◌, ◌≤◌, ◌<◌, ◌≡◌, inl, inr, refl, sym, subst, ap, ◌∙◌, arith, Bool-cases,
  true, false, ◌||◌, length, take, get_or, set, ltb, leb, ◌==◌, length-set, length-take,
  get_or-set_self,
}
use mox_boot_builder.Strings.{Memory, memmove, memcpy, store}
use mox_boot_builder.Strings.Copy.{
  length-store, store-outside, memcpy_lem, length-memcpy, get_or-store, get_or-take,
}
use mox_boot_builder.Debug.Editor.{
  Editor, chars_at, drop_oldest, put_last, history_add, history_get, is_last,
}
use mox_boot_builder.Debug.Keys.{enter, clear}
use mox_boot_builder.Debug.History.{at_pos}
use mox_boot_builder.Debug.Bounds.{IsValid, IsTerminated, with_cmd}

memmove-memcpy : (n len : ℕ) (mem : Memory) → 0 < len → memmove n 0 len mem ≡ memcpy n 0 len mem
unfolding memmove
memmove-memcpy n len mem h =
    let differ : (0 == len) ≡ false = ground arith in
    let down : (ltb 0 len || leb (len + n) 0) ≡ true = ground arith in rw (differ, down) refl

moved_down :
    (n len k : ℕ) (mem : Memory)
    → 0 < len
    → k < n
    → len + n ≤ length mem
    → get_or (memmove n 0 len mem) k 0 ≡ get_or mem (len + k) 0
moved_down n len k mem h lt fits =
    let here : k ≡ 0 + k = omega arith in
    ap (λ m. get_or m k 0) (memmove-memcpy n len mem h)
    ∙ ap (λ (j : ℕ). get_or (memcpy n 0 len mem) j 0) here
    ∙ (memcpy_lem n 0 len mem (inl (omega arith)) (omega arith)).0 k lt

-- What is left when the first `len` places are dropped is as it was.
dropped-IsTerminated :
    (mem : Memory) (end len : ℕ)
    → 0 < len
    → end ≤ length mem
    → IsTerminated mem end
    → IsTerminated (memmove (end - len) 0 len mem) (end - len)
dropped-IsTerminated mem end len h fits t p lt =
    let (q, le, below, near, z) = t (len + p) (omega arith) in
    let back : len + (q - len) ≡ q = omega arith in
    (
      q - len,
      omega arith,
      omega arith,
      omega arith,
      moved_down (end - len) len (q - len) mem h (omega arith) (omega arith)
          ∙ ap (λ k. get_or mem k 0) back
          ∙ z,
    )

-- A valid editor with another history.
with_history :
    (e : Editor) (mem : Memory) (n k : ℕ)
    → IsValid e
    → length mem ≡ 2048
    → n ≤ 2048
    → IsTerminated mem n
    → e.history_pos ≡ 0
    → IsValid (record e { history = mem; history_len = n; history_cmds = k })
with_history e mem n k v size a t z = record {
  cmd_size = v.cmd_size;
  seq_size = v.seq_size;
  history_size = size;
  orig_size = v.orig_size;
  pos_in = v.pos_in;
  len_in = v.len_in;
  seq_in = v.seq_in;
  history_in = a;
  terminated = t;
  orig_end = v.orig_end;
  shown = λ j h. absurd (omega arith);
  running = v.running;
}

-- `r` is `e` with a history that has room for `need` characters.
record HasRoom (need : ℕ) (e r : Editor) : Type 0 where
  valid : IsValid r
  fits : r.history_len + need ≤ 2048
  same_cmd : r.cmd ≡ e.cmd
  same_len : r.cmdlen ≡ e.cmdlen
  at_end : r.history_pos ≡ 0

drop_oldest-HasRoom :
    (fuel need : ℕ) (e : Editor)
    → IsValid e
    → need ≤ 128
    → e.history_len ≤ fuel
    → e.history_pos ≡ 0
    → HasRoom need e (drop_oldest fuel need e)
unfolding drop_oldest
drop_oldest-HasRoom zero need e v small enough z = record {
  valid = v;
  fits = omega arith;
  same_cmd = refl;
  same_len = refl;
  at_end = z;
}
drop_oldest-HasRoom (suc fuel) need e v small enough z =
    let len = length (chars_at 2048 0 e.history) + 1 in
    let left = e.history_len - len in
    let mem = memmove left 0 len e.history in
    let size : length mem ≡ 2048 =
      ap length (memmove-memcpy left len e.history (omega arith))
      ∙ length-memcpy left 0 len e.history
      ∙ v.history_size in
    let v2 =
      with_history e mem left (e.history_cmds - 1) v size (omega (arith, v.history_in))
        (dropped-IsTerminated e.history e.history_len len (omega arith)
          (omega (arith, v.history_in, v.history_size)) v.terminated)
        z in
    elim (Bool-cases (ltb (2048 - e.history_len) need)) [
      | inl more ↦
          let r =
            drop_oldest-HasRoom fuel need
              (record e { history = mem; history_len = left; history_cmds = e.history_cmds - 1 }) v2
              small (omega arith) z in
          rw more (record {
            valid = r.valid;
            fits = r.fits;
            same_cmd = r.same_cmd;
            same_len = r.same_len;
            at_end = r.at_end;
          })
      | inr done ↦ rw done (record {
        valid = v;
        fits = room e.history_len need small done v.history_in;
        same_cmd = refl;
        same_len = refl;
        at_end = z;
      })
    ]
  where
    room : (n need : ℕ) → need ≤ 128 → ltb (2048 - n) need ≡ false → n ≤ 2048 → n + need ≤ 2048
    room n need small done h = ground arith

put_last-IsTerminated :
    (cmd mem : Memory) (n end : ℕ)
    → n ≤ 127
    → n < length cmd
    → end + (n + 1) ≤ length mem
    → get_or cmd n 0 ≡ 0
    → IsTerminated mem end
    → IsTerminated (store (take (n + 1) cmd) end mem) (end + (n + 1))
put_last-IsTerminated cmd mem n end small inside fits z t p lt =
    let size : length (take (n + 1) cmd) ≡ n + 1 = length-take (n + 1) cmd ∙ omega arith in
    elim (Bool-cases (ltb p end)) [
      | inl old ↦
          let (q, le, below, near, zq) = t p (ground arith) in
          (q, le, omega arith, near, store-outside (take (n + 1) cmd) end q mem (inl below) ∙ zq)
      | inr new ↦ (
        end + n,
        omega arith,
        omega arith,
        ground arith,
        get_or-store (take (n + 1) cmd) end n mem (omega arith) (omega arith)
            ∙ get_or-take (n + 1) n cmd (omega arith)
            ∙ z,
      )
    ]

put_last-IsValid :
    (e : Editor)
    → IsValid e
    → e.history_len + (e.cmdlen + 1) ≤ 2048
    → get_or e.cmd e.cmdlen 0 ≡ 0
    → e.history_pos ≡ 0
    → IsValid (put_last e)
put_last-IsValid e v fits z pos =
    with_history e (store (take (e.cmdlen + 1) e.cmd) e.history_len e.history)
      (e.history_len + (e.cmdlen + 1)) (e.history_cmds + 1) v
      (length-store (take (e.cmdlen + 1) e.cmd) e.history_len e.history ∙ v.history_size) fits
      (put_last-IsTerminated e.cmd e.history e.cmdlen e.history_len v.len_in
        (omega (arith, v.cmd_size, v.len_in)) (omega (arith, v.history_size)) z v.terminated)
      pos

history_add-IsValid :
    (e : Editor)
    → IsValid e
    → get_or e.cmd e.cmdlen 0 ≡ 0
    → e.history_pos ≡ 0
    → IsValid (history_add e)
unfolding history_add
history_add-IsValid e v z pos = elim (Bool-cases (e.cmdlen == 0)) [
  | inl empty ↦ rw empty v
  | inr some_chars ↦ elim (Bool-cases (is_last e)) [
    | inl same ↦ rw (some_chars, same) v
    | inr other ↦
        let r =
          drop_oldest-HasRoom 2048 (e.cmdlen + 1) e v (omega (arith, v.len_in)) v.history_in pos in
        let dropped = drop_oldest 2048 (e.cmdlen + 1) e in
        rw (some_chars, other)
          (put_last-IsValid dropped r.valid
            (subst (λ (k : ℕ). dropped.history_len + (k + 1) ≤ 2048) (sym r.same_len) r.fits)
            (ap (λ m. get_or m dropped.cmdlen 0) r.same_cmd
              ∙ ap (λ k. get_or e.cmd k 0) r.same_len
              ∙ z)
            r.at_end)
  ]
]

pub clear-IsValid : (e : Editor) → IsValid e → IsValid (clear e)
clear-IsValid e v = record {
  cmd_size = v.cmd_size;
  seq_size = v.seq_size;
  history_size = v.history_size;
  orig_size = v.orig_size;
  pos_in = omega arith;
  len_in = omega arith;
  seq_in = v.seq_in;
  history_in = v.history_in;
  terminated = v.terminated;
  orig_end = v.orig_end;
  shown = λ j h. absurd (omega arith);
  running = v.running;
}

drop_oldest-at_end :
    (fuel need : ℕ) (e : Editor)
    → drop_oldest fuel need (record e { history_pos = 0 })
      ≡ record (drop_oldest fuel need e) { history_pos = 0 }
unfolding drop_oldest
drop_oldest-at_end zero need e = refl
drop_oldest-at_end (suc fuel) need e =
    let len = length (chars_at 2048 0 e.history) + 1 in
    let left = e.history_len - len in
    elim (Bool-cases (ltb (2048 - e.history_len) need)) [
      | inl more ↦ rw more (
          drop_oldest-at_end fuel need (record e {
            history = memmove left 0 len e.history;
            history_len = left;
            history_cmds = e.history_cmds - 1;
          }))
      | inr done ↦ rw done refl
    ]

-- The place in the history plays no part when a command is added.
history_add-at_end :
    (e : Editor)
    → history_add (record e { history_pos = 0 }) ≡ record (history_add e) { history_pos = 0 }
unfolding history_add history_get
history_add-at_end e = elim (Bool-cases (e.cmdlen == 0)) [
  | inl empty ↦ rw empty refl
  | inr some_chars ↦ elim (Bool-cases (is_last e)) [
    | inl same ↦ rw (some_chars, same) refl
    | inr other ↦ rw (some_chars, other) (ap put_last (drop_oldest-at_end 2048 (e.cmdlen + 1) e))
  ]
]

pub enter-IsValid : (e : Editor) → IsValid e → IsValid (enter e)
unfolding enter
enter-IsValid e v =
    let closed = record e { cmd = set e.cmd e.cmdlen 0 } in
    let w =
      with_cmd e (set e.cmd e.cmdlen 0) e.cmdlen e.cmdpos v
        (length-set e.cmd e.cmdlen 0 ∙ v.cmd_size) v.pos_in v.len_in in
    let top = record closed { history_pos = 0 } in
    subst IsValid (ap clear (history_add-at_end closed)) (
      clear-IsValid (history_add top) (
        history_add-IsValid top (at_pos closed 0 w λ j h. absurd (omega arith))
          (get_or-set_self e.cmd e.cmdlen 0 0 (omega (arith, v.len_in, v.cmd_size))) refl))
