-- ===== src/Entropy/Tests.antt =====
-- The ring buffers of ebg.c at concrete inputs.
use mox_boot_builder.Prelude.{
  ℕ, ◌-◌, ◌≡◌, arith, refl, some, List, [], ◌∷◌, ◌++◌, length, take, min, replicate,
}
use mox_boot_builder.Bus.{Bus}
use mox_boot_builder.Bus.Sample.{constant}
use mox_boot_builder.Bus.Wait.{Wait}
use mox_boot_builder.Entropy.Fill.{HasEntropy}
use mox_boot_builder.Entropy.Mixed.{Ebg, paranoid_rand}
use mox_boot_builder.Entropy.Paranoid.{IsSound, HasDigests, paranoid_rand-fills}
use mox_boot_builder.Entropy.{Cbuf, empty_cbuf, cbuf_pull, cbuf_push}
use mox_boot_builder.Entropy.Ring.{IsClean, contents, empty-IsClean}
use mox_boot_builder.Entropy.Fifo.{cbuf_pull-Takes, cbuf_push-appends}

abbrev words : List ℕ
words = 21 ∷ 22 ∷ 23 ∷ []

abbrev filled : Cbuf
filled = cbuf_push 3 words empty_cbuf

filled-IsClean : IsClean filled
filled-IsClean = (cbuf_push-appends 3 words empty_cbuf empty-IsClean (omega arith)).1

cbuf_push-appends_example :
    (contents filled ≡ contents empty_cbuf ++ take (min (4096 - 0) 3) words) × IsClean filled
cbuf_push-appends_example = cbuf_push-appends 3 words empty_cbuf empty-IsClean (omega arith)

cbuf_pull-Takes_example :
    let r = cbuf_pull 2 filled in
    (contents filled ≡ r.0 ++ contents r.1) × (length r.0 ≡ min filled.len 2) × IsClean r.1
cbuf_pull-Takes_example = cbuf_pull-Takes 2 filled filled-IsClean

abbrev device : Bus (Unit {0})
device = constant 0x80001234

device-HasEntropy : HasEntropy device 0 0
device-HasEntropy s = refl

abbrev sample_sha512 : List ℕ → Wait (Unit {0}) (List ℕ)
sample_sha512 message s = some (replicate 16 5, s)

sample_sha512-HasDigests : HasDigests device sample_sha512 0 0 0x20000000
sample_sha512-HasDigests message s = ((replicate 16 5, s), refl, refl)

abbrev started : Ebg
started = record { ebg_cbuf = empty_cbuf; rand_cbuf = filled; digest = replicate 16 0; carry = 0 }

started-IsSound : IsSound started
started-IsSound = record {
  ebg_clean = empty-IsClean;
  rand_clean = filled-IsClean;
  digest_size = refl;
}

-- Three bytes of a hundred wait in the buffer, and two blocks give the others.
paranoid_rand-fills_example :
    (got more rest : List ℕ) × (e1 : Ebg) × (s1 : Unit {0}) × (paranoid_rand device sample_sha512 1
        0 0x20000000 100 started tt
      ≡ some ((got ++ more, e1), s1))
    × (length (got ++ more) ≡ 100)
    × (contents filled ≡ got ++ rest)
    × (length got ≡ min filled.len 100)
    × IsSound e1
paranoid_rand-fills_example =
    paranoid_rand-fills device sample_sha512 0 0 0x20000000 device-HasEntropy
      sample_sha512-HasDigests 100 started tt started-IsSound
