-- ===== src/Entropy.antt =====
-- wtmi/ebg.c: the ring buffers that hold random bytes, one from the entropy source, one mixed.
pub mod Ring
pub mod Parts
pub mod Fifo
pub mod Source
pub mod Fill
pub mod Mixed
pub mod Paranoid
mod Tests
use mox_boot_builder.Prelude.{
  ℕ, zero, suc, ◌+◌, ◌-◌, ◌%◌, List, [], ◌∷◌, ◌++◌, get_or, set, replicate, take, drop, min, ltb,
  if◌then◌else◌,
}
use mox_boot_builder.Strings.{bzero, store}

-- `sizeof(ebg_buffer)`, which is `sizeof(paranoid_rand_buffer)` too.
abbrev pub cbuf_size : ℕ
cbuf_size = 4096

-- `cbuf_t`, with `buffer` for its field `data`; the size is that of both buffers.
pub record Cbuf : Type 0 where
  pub buffer : List ℕ
  pub len : ℕ
  pub pos : ℕ

-- The static buffers before they are used.
abbrev pub empty_cbuf : Cbuf
empty_cbuf = record { buffer = replicate 4096 0; len = 0; pos = 0 }

-- What `memcpy(dest, &data[i], n)` stores at `dest`.
pub read_at : ℕ → ℕ → List ℕ → List ℕ
read_at zero i bytes = []
read_at (suc n) i bytes = get_or bytes i 0 ∷ read_at n (i + 1) bytes

-- The end of `cbuf_pull`, which takes `n` bytes without wrapping around.
unfoldable pub pull_part : ℕ → Cbuf → List ℕ × Cbuf
pull_part n c = (
  read_at n c.pos c.buffer,
  record { buffer = bzero n c.pos c.buffer; len = c.len - n; pos = (c.pos + n) % cbuf_size },
)

-- `cbuf_pull`: the bytes stored at `dest`, as many as the code returns, and the buffer after it.
unfoldable pub cbuf_pull : ℕ → Cbuf → List ℕ × Cbuf
unfolding pull_part
cbuf_pull wanted c =
    let n = min c.len wanted in
    if ltb cbuf_size (c.pos + n)
    then (let tail = cbuf_size - c.pos in
        let cut : Cbuf = record {
          buffer = bzero tail c.pos c.buffer;
          len = c.len - tail;
          pos = 0;
        } in
        let (rest, c') = pull_part (n - tail) cut in (read_at tail c.pos c.buffer ++ rest, c'))
    else pull_part n c

-- `cbuf_free_space`
unfoldable pub cbuf_free_space : Cbuf → ℕ
cbuf_free_space c = cbuf_size - c.len

-- `memcpy(dest, src, len); cbuf->len += len;` for `n` bytes of `src` and a place in the buffer
unfoldable pub push_part : ℕ → ℕ → List ℕ → Cbuf → Cbuf
push_part n dest src c = record {
  buffer = store (take n src) dest c.buffer;
  len = c.len + n;
  pos = c.pos;
}

-- `cbuf_push` of the first `offered` bytes of `src`.
unfoldable pub cbuf_push : ℕ → List ℕ → Cbuf → Cbuf
unfolding push_part cbuf_free_space
cbuf_push offered src c =
    let n = min (cbuf_free_space c) offered in
    let place = (c.pos + c.len) % cbuf_size in
    if ltb cbuf_size (place + n)
    then (let tail = cbuf_size - place in
        push_part (n - tail) 0 (drop tail src) (push_part tail place src c))
    else push_part n place src c

-- `ebg_rand`
unfoldable pub ebg_rand : ℕ → Cbuf → List ℕ × Cbuf
unfolding cbuf_pull
ebg_rand size c = cbuf_pull (min c.len size) c
