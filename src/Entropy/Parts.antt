-- ===== src/Entropy/Parts.antt =====
-- The parts of `cbuf_pull` and `cbuf_push` of ebg.c that do not wrap around.
use mox_boot_builder.Prelude.{
  ℕ, ◌+◌, ◌-◌, ◌%◌, ◌≤◌, ◌<◌, ◌≡◌, ◌⊎◌, inl, inr, sym, ap, ap₂, ◌∙◌, arith, List, ◌++◌, length,
  take, get_or, length-take,
}
use mox_boot_builder.Strings.{bzero, store}
use mox_boot_builder.Strings.Copy.{length-store, store-outside}
use mox_boot_builder.Entropy.{Cbuf, read_at, pull_part, push_part}
use mox_boot_builder.Entropy.Ring.{
  ring, contents, IsClean, length-bzero, bzero-outside, bzero-keeps, bzero-inside, ring-read,
  ring-append, ring-mod, ring-agree, read_at-store,
}

-- Bytes taken without wrapping around: they are the first that wait, and their places are wiped.
pub pull_part-takes :
    (n : ℕ) (c : Cbuf)
    → IsClean c
    → n ≤ c.len
    → c.pos + n ≤ 4096
    → (contents c ≡ (pull_part n c).0 ++ contents (pull_part n c).1) × IsClean (pull_part n c).1
unfolding pull_part
pull_part-takes n c v h fits =
    let next = (c.pos + n) % 4096 in
    let kept =
      ring-agree (c.len - n) next c.buffer (bzero n c.pos c.buffer)
        (λ j l u. bzero-outside n c.pos (j % 4096) c.buffer (apart j l u)) in
    (
      ap (λ (k : ℕ). ring k c.pos c.buffer) whole
          ∙ ring-append n (c.len - n) c.pos c.buffer
          ∙ ap₂ ◌++◌ (ring-read n c.pos c.buffer fits)
              (ring-mod (c.len - n) (c.pos + n) next c.buffer (omega arith) ∙ sym kept),
      record {
        bytes = length-bzero n c.pos c.buffer ∙ v.bytes;
        pos_in = omega arith;
        len_in = omega (arith, v.len_in);
        wiped = cleared;
      },
    )
  where
    whole : c.len ≡ n + (c.len - n)
    whole = omega arith

    apart :
        (j : ℕ)
        → (c.pos + n) % 4096 ≤ j
        → j < (c.pos + n) % 4096 + (c.len - n)
        → (j % 4096 < c.pos) ⊎ (c.pos + n ≤ j % 4096)
    apart j l u = omega (arith, v.len_in, v.pos_in)

    places :
        (j : ℕ)
        → (c.pos + n) % 4096 + (c.len - n) ≤ j
        → j < (c.pos + n) % 4096 + 4096
        → ((c.pos ≤ j % 4096) × (j % 4096 < c.pos + n))
          ⊎ (((c.pos + c.len ≤ j) × (j < c.pos + 4096))
              ⊎ ((c.pos + c.len ≤ j + 4096) × (j + 4096 < c.pos + 4096)))
    places j l u = omega (arith, v.len_in, v.pos_in)

    cleared :
        (j : ℕ)
        → (c.pos + n) % 4096 + (c.len - n) ≤ j
        → j < (c.pos + n) % 4096 + 4096
        → get_or (bzero n c.pos c.buffer) (j % 4096) 0 ≡ 0
    cleared j l u = elim (places j l u) [
      | inl w ↦ bzero-inside n c.pos (j % 4096) c.buffer w.0 w.1
      | inr (inl w) ↦ bzero-keeps n c.pos (j % 4096) c.buffer (v.wiped j w.0 w.1)
      | inr (inr w) ↦
          let e : (j + 4096) % 4096 ≡ j % 4096 = omega arith in
          bzero-keeps n c.pos (j % 4096) c.buffer
            (ap (λ k. get_or c.buffer k 0) (sym e) ∙ v.wiped (j + 4096) w.0 w.1)
    ]

-- Bytes stored behind those that wait, without wrapping around.
pub push_part-appends :
    (n dest : ℕ) (src : List ℕ) (c : Cbuf)
    → IsClean c
    → n ≤ length src
    → c.len + n ≤ 4096
    → dest ≡ (c.pos + c.len) % 4096
    → dest + n ≤ 4096
    → (contents (push_part n dest src c) ≡ contents c ++ take n src)
      × IsClean (push_part n dest src c)
unfolding push_part
push_part-appends n dest src c v enough room place fits =
    let new = store (take n src) dest c.buffer in
    let read : read_at n dest new ≡ take n src =
      ap (λ k. read_at k dest new) (sym size)
      ∙ read_at-store (take n src) dest c.buffer (omega (arith, size, v.bytes)) in
    let kept =
      ring-agree c.len c.pos c.buffer new
        (λ j l u. store-outside (take n src) dest (j % 4096) c.buffer (apart j l u)) in
    (
      ring-append c.len n c.pos new
          ∙ ap₂ ◌++◌ kept (
              ring-mod n (c.pos + c.len) dest new (omega arith) ∙ ring-read n dest new fits ∙ read),
      record {
        bytes = length-store (take n src) dest c.buffer ∙ v.bytes;
        pos_in = v.pos_in;
        len_in = room;
        wiped = λ j l u.
            store-outside (take n src) dest (j % 4096) c.buffer (free j l u)
            ∙ v.wiped j (omega arith) u;
      },
    )
  where
    size : length (take n src) ≡ n
    size = omega (arith, length-take n src)

    apart :
        (j : ℕ)
        → c.pos ≤ j
        → j < c.pos + c.len
        → (j % 4096 < dest) ⊎ (dest + length (take n src) ≤ j % 4096)
    apart j l u = omega (arith, size, v.pos_in)

    free :
        (j : ℕ)
        → c.pos + (c.len + n) ≤ j
        → j < c.pos + 4096
        → (j % 4096 < dest) ⊎ (dest + length (take n src) ≤ j % 4096)
    free j l u = omega (arith, size, v.pos_in)
