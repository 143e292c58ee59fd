-- ===== src/Entropy/Fifo.antt =====
-- The ring buffer of ebg.c is a queue of bytes, and keeps no byte that it has given away.
use mox_boot_builder.Prelude.{
  ℕ, zero, suc, ◌+◌, ◌-◌, ◌%◌, ◌≤◌, ◌<◌, ◌≡◌, inl, inr, refl, sym, subst, ap, ap₂, ◌∙◌, arith,
  Bool-cases, List, ◌++◌, length, take, drop, min, ltb, take-append-take, length-drop,
  length-append,
}
use mathlib.Core.List.{append_assoc}
use mox_boot_builder.Strings.{bzero}
use mox_boot_builder.Entropy.{
  Cbuf, read_at, pull_part, cbuf_pull, cbuf_free_space, push_part, cbuf_push,
}
use mox_boot_builder.Entropy.Ring.{contents, IsClean}
use mox_boot_builder.Entropy.Parts.{pull_part-takes, push_part-appends}

length-read_at : (n i : ℕ) (bytes : List ℕ) → length (read_at n i bytes) ≡ n
unfolding read_at
length-read_at zero i bytes = refl
length-read_at (suc n) i bytes = ap suc (length-read_at n (i + 1) bytes)

-- The buffer of `cbuf_pull` after the bytes up to the end of the array have been taken.
abbrev cut : Cbuf → Cbuf
cut c = record {
  buffer = bzero (4096 - c.pos) c.pos c.buffer;
  len = c.len - (4096 - c.pos);
  pos = 0;
}

cut_lem : (c : Cbuf) → c.pos < 4096 → (pull_part (4096 - c.pos) c).1 ≡ cut c
unfolding pull_part
cut_lem c h =
    let at : (c.pos + (4096 - c.pos)) % 4096 ≡ 0 = omega arith in
    ap
      (λ (k : ℕ). record {
        buffer = bzero (4096 - c.pos) c.pos c.buffer;
        len = c.len - (4096 - c.pos);
        pos = k;
      })
      at

-- Takes the oldest bytes, in order, as many as are wanted and there are; the others stay.
abbrev Takes : ℕ → Cbuf → List ℕ × Cbuf → Type 0
Takes n c r = (contents c ≡ r.0 ++ contents r.1) × (length r.0 ≡ n) × IsClean r.1

pull_part-Takes :
    (n : ℕ) (c : Cbuf) → IsClean c → n ≤ c.len → c.pos + n ≤ 4096 → Takes n c (pull_part n c)
unfolding pull_part
pull_part-Takes n c v h fits =
    let t = pull_part-takes n c v h fits in (t.0, length-read_at n c.pos c.buffer, t.1)

-- Two takes one after another.
Takes-trans :
    (m n : ℕ) (c c' c'' : Cbuf) (xs ys : List ℕ)
    → Takes m c (xs, c')
    → Takes n c' (ys, c'')
    → Takes (m + n) c (xs ++ ys, c'')
Takes-trans m n c c' c'' xs ys (p, l, v) (q, k, w) = (
  p ∙ ap (λ zs. xs ++ zs) q ∙ sym (append_assoc xs ys (contents c'')),
  length-append xs ys ∙ ap₂ (λ (a b : ℕ). a + b) l k,
  w,
)

cut-Takes :
    (c : Cbuf)
    → IsClean c
    → 4096 - c.pos ≤ c.len
    → Takes (4096 - c.pos) c (read_at (4096 - c.pos) c.pos c.buffer, cut c)
unfolding pull_part
cut-Takes c v h =
    let tail = 4096 - c.pos in
    subst (λ d. Takes tail c (read_at tail c.pos c.buffer, d)) (cut_lem c v.pos_in)
      (pull_part-Takes tail c v h (omega (arith, v.pos_in)))

-- `cbuf_pull` takes bytes from a queue: what it stores are the oldest bytes that wait, in order,
-- as many as are wanted or as there are, and the buffer holds the others. Every place that they
-- leave in the buffer is 0 afterwards, also when they wrap around its end.
pub cbuf_pull-Takes :
    (wanted : ℕ) (c : Cbuf)
    → IsClean c
    → let r = cbuf_pull wanted c in
      (contents c ≡ r.0 ++ contents r.1) × (length r.0 ≡ min c.len wanted) × IsClean r.1
unfolding cbuf_pull
cbuf_pull-Takes wanted c v =
    let n = min c.len wanted in
    let tail = 4096 - c.pos in
    elim (Bool-cases (ltb 4096 (c.pos + n))) [
      | inl wraps ↦
          let over : 4096 < c.pos + n = ground arith in
          let first = cut-Takes c v (omega (arith, v.pos_in)) in
          let second =
            pull_part-Takes (n - tail) (cut c) first.2 (omega (arith, v.pos_in))
              (omega (arith, v.pos_in, v.len_in)) in
          let both =
            Takes-trans tail (n - tail) c (cut c) (pull_part (n - tail) (cut c)).1
              (read_at tail c.pos c.buffer) (pull_part (n - tail) (cut c)).0 first second in
          let sum : tail + (n - tail) ≡ n = omega (arith, v.pos_in) in
          rw wraps (both.0, both.1 ∙ sum, both.2)
      | inr e ↦ rw e (pull_part-Takes n c v (omega arith) (ground arith))
    ]

-- `cbuf_push` appends to the queue the first of the bytes offered, as many as there is room for;
-- none that waits is overwritten, also when the new bytes wrap around the end of the array.
pub cbuf_push-appends :
    (offered : ℕ) (src : List ℕ) (c : Cbuf)
    → IsClean c
    → offered ≤ length src
    → (contents (cbuf_push offered src c) ≡ contents c ++ take (min (4096 - c.len) offered) src)
      × IsClean (cbuf_push offered src c)
unfolding cbuf_push cbuf_free_space
cbuf_push-appends offered src c v enough =
    let n = min (4096 - c.len) offered in
    let place = (c.pos + c.len) % 4096 in
    let tail = 4096 - place in
    elim (Bool-cases (ltb 4096 (place + n))) [
      | inl wraps ↦
          let over : 4096 < place + n = ground arith in
          let first =
            push_part-appends tail place src c v (omega arith) (omega (arith, v.len_in)) refl
              (omega arith) in
          let second =
            push_part-appends (n - tail) 0 (drop tail src) (push_part tail place src c) first.1
              (omega (arith, length-drop tail src)) (unfold push_part in omega (arith, v.len_in))
              (unfold push_part in omega arith) (omega (arith, v.len_in)) in
          rw wraps (
            second.0
                ∙ ap (λ xs. xs ++ take (n - tail) (drop tail src)) first.0
                ∙ append_assoc (contents c) (take tail src) (take (n - tail) (drop tail src))
                ∙ ap (λ xs. contents c ++ xs) (take-append-take tail (n - tail) src)
                ∙ ap (λ (k : ℕ). contents c ++ take k src) (omega arith),
            second.1,
          )
      | inr e ↦ rw e (
          push_part-appends n place src c v (omega arith) (omega (arith, v.len_in)) refl
            (ground arith))
    ]
