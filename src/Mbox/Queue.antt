-- ===== src/Mbox/Queue.antt =====
-- The request queue of mbox.c against a plain list, oldest request first.
use mox_boot_builder.Prelude.{
  ℕ, zero, suc, ◌+◌, ◌-◌, ◌<◌, ◌≡◌, refl, ◌∙◌, sym, ap, ap₂, arith, List, [], ◌∷◌, ◌++◌, eq→==,
}
use mox_boot_builder.Mbox.{Request, Mailbox}
use mox_boot_builder.Mbox.Wire.{enqueue, dequeue}
use mox_boot_builder.Mbox.Invariant.{slot, IsSized, slot-enqueue, slot-dequeue}

module _ {S : Type 0} where
  -- The `n` requests from place `k` on.
  abbrev pub from : Mailbox S → ℕ → ℕ → List Request
  from mb k zero = []
  from mb k (suc n) = slot mb k ∷ from mb (suc k) n

  abbrev pub requests : Mailbox S → List Request
  requests mb = from mb 0 mb.cmd_queue_fill

  from-enqueue :
      (cmd k n : ℕ) (args : List ℕ) (mb : Mailbox S)
      → IsSized mb
      → mb.cmd_queue_fill < 8
      → k + n ≡ mb.cmd_queue_fill
      → from (enqueue cmd args mb) k (suc n) ≡ from mb k n ++ record { cmd = cmd; args = args } ∷ []
  from-enqueue cmd k zero args mb v room e =
      let last : k ≡ mb.cmd_queue_fill = omega arith in
      rw (slot-enqueue cmd k args mb v room (omega arith), eq→== k mb.cmd_queue_fill last)
  from-enqueue cmd k (suc n) args mb v room e =
      ap₂ ◌∷◌ (slot-enqueue cmd k args mb v room (omega arith) ∙ ground arith)
        (from-enqueue cmd (suc k) n args mb v room (omega arith))

  -- With a free slot, `enqueue` appends the request to the queue and keeps all others in order.
  pub requests-enqueue :
      (cmd : ℕ) (args : List ℕ) (mb : Mailbox S)
      → IsSized mb
      → mb.cmd_queue_fill < 8
      → requests (enqueue cmd args mb) ≡ requests mb ++ record { cmd = cmd; args = args } ∷ []
  requests-enqueue cmd args mb v room =
      ap (λ n. from (enqueue cmd args mb) 0 n) grown
      ∙ from-enqueue cmd 0 mb.cmd_queue_fill args mb v room (omega arith)
    where
      grown : (enqueue cmd args mb).cmd_queue_fill ≡ suc mb.cmd_queue_fill
      grown = unfold enqueue in omega arith

  from-dequeue : (k n : ℕ) (mb : Mailbox S) → from (dequeue mb) k n ≡ from mb (suc k) n
  from-dequeue k zero mb = refl
  from-dequeue k (suc n) mb = ap₂ ◌∷◌ (slot-dequeue k mb) (from-dequeue (suc k) n mb)

  -- From a queue that is not empty, `dequeue` removes exactly the oldest request.
  pub requests-dequeue :
      (mb : Mailbox S) → 0 < mb.cmd_queue_fill → requests mb ≡ slot mb 0 ∷ requests (dequeue mb)
  unfolding dequeue
  requests-dequeue mb h = ap (λ n. from mb 0 n) one_more ∙ ap (λ r. slot mb 0 ∷ r) rest
    where
      one_more : mb.cmd_queue_fill ≡ suc (mb.cmd_queue_fill - 1)
      one_more = omega arith

      rest : from mb 1 (mb.cmd_queue_fill - 1) ≡ requests (dequeue mb)
      rest = sym (from-dequeue 0 (mb.cmd_queue_fill - 1) mb)
