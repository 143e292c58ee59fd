-- ===== src/Mbox/Interrupt.antt =====
-- `mbox_irq_handler` of mbox.c: what it does to the queue, on every branch.
use mox_boot_builder.Prelude.{
  ℕ, ◌≤◌, ◌<◌, ◌≡◌, ◌⊎◌, inl, inr, refl, sym, subst, arith, Bool-cases, true, List, [], ◌∷◌, ◌++◌,
  leb, ◌==◌, bit_and, length,
}
use mathlib.Core.List.{append-nil}
use mox_boot_builder.Bus.{Bus}
use mox_boot_builder.Mbox.{Request, Mailbox, Outcome, done, spinning, null_call, then_do, is_set}
use mox_boot_builder.Mbox.Wire.{
  find_handler, enqueue, accept, mbox_irq_handler, mbox_in_cmd, read_args, mbox_has_cmd,
}
use mox_boot_builder.Mbox.Invariant.{IsValid, IsSized, enqueue-IsValid}
use mox_boot_builder.Mbox.Queue.{requests, requests-enqueue}

module _ {S : Type 0} where
  -- The interrupt handler leaves the queue as it was, or appends one request that has a handler.
  abbrev pub Grows : Mailbox S → Mailbox S → Type 0
  Grows mb mb' =
      (mb' ≡ mb)
      ⊎ ((cmd : ℕ) × (args : List ℕ) × (mb.cmd_queue_fill < 8)
          × (is_set (find_handler mb cmd) ≡ true)
          × (mb' ≡ enqueue cmd args mb))

  pub Grows-IsValid : {mb mb' : Mailbox S} → Grows mb mb' → IsValid mb → IsValid mb'
  Grows-IsValid (inl e) v = rw e v
  Grows-IsValid {mb} (inr (cmd, args, room, h, e)) v = rw e (enqueue-IsValid cmd args mb v room h)

  pub Grows-requests :
      {mb mb' : Mailbox S}
      → Grows mb mb'
      → IsSized mb
      → (new : List Request) × (requests mb' ≡ requests mb ++ new) × (length new ≤ 1)
  Grows-requests {mb} (inl e) v = ([], rw e (sym (append-nil (requests mb))), omega arith)
  Grows-requests {mb} (inr (cmd, args, room, h, e)) v = (
    record { cmd = cmd; args = args } ∷ [],
    rw e (requests-enqueue cmd args mb v room),
    omega arith,
  )

  -- `P` of the mailbox, if the call returns.
  abbrev After : (Mailbox S → Type 0) → Outcome (Mailbox S × S) → Type 0
  After P (done r) = P r.0
  After P spinning = Unit
  After P null_call = Unit

  After-same :
      (P : Mailbox S → Type 0) (mb : Mailbox S) (o : Outcome S)
      → P mb
      → After P (then_do o (λ s'. done (mb, s')))
  After-same P mb (done s) h = h
  After-same P mb spinning h = tt
  After-same P mb null_call h = tt

  After-map :
      (P : Mailbox S → Type 0) (f : S → S) (o : Outcome (Mailbox S × S))
      → After P o
      → After P (then_do o (λ r. done (r.0, f r.1)))
  After-map P f (done r) h = h
  After-map P f spinning h = tt
  After-map P f null_call h = tt

module _ {S : Type 0} (bus : Bus S) where
  accept-Grows :
      (fuel cmd : ℕ) (mb : Mailbox S) (s : S)
      → mb.cmd_queue_fill < 8
      → After (Grows mb) (accept bus fuel cmd mb s)
  unfolding accept
  accept-Grows fuel cmd mb s room = elim (Bool-cases (is_set (find_handler mb cmd))) [
    | inl e ↦ rw e (inr (cmd, (read_args bus 16 0 s).0, room, e, refl))
    | inr e ↦ rw e (elim (Bool-cases (leb 256 cmd)) [
      | inl l ↦ rw l (After-same (Grows mb) mb _ (inl refl))
      | inr l ↦ rw l (After-same (Grows mb) mb _ (inl refl))
    ])
  ]

  irq-After :
      (fuel : ℕ) (mb : Mailbox S) (s : S)
      → IsSized mb
      → After (Grows mb) (mbox_irq_handler bus fuel mb s)
  unfolding mbox_irq_handler
  irq-After fuel mb s v =
      let r = bus.read mbox_in_cmd (mbox_has_cmd bus s).1 in
      elim (Bool-cases (mbox_has_cmd bus s).0) [
        | inr e ↦ rw e (inl refl)
        | inl e ↦ rw e (elim (Bool-cases (mb.cmd_queue_fill == 8)) [
          | inl full ↦ rw full (inl refl)
          | inr room ↦ rw room (
              After-map (Grows mb) _ _
                (accept-Grows fuel (bit_and r.0 0xffff) mb r.1 (ground arith)))
        ])
      ]

  pub irq_Grows :
      (fuel : ℕ) (mb mb' : Mailbox S) (s s' : S)
      → IsSized mb
      → mbox_irq_handler bus fuel mb s ≡ done (mb', s')
      → Grows mb mb'
  irq_Grows fuel mb mb' s s' v h = subst (After (Grows mb)) h (irq-After fuel mb s v)

  -- When the interrupt handler returns, it has kept the invariant, and the queue of requests is the
  -- old one with at most one request appended: nothing stored is lost, changed or reordered.
  pub mbox_irq_handler_lem :
      (fuel : ℕ) (mb mb' : Mailbox S) (s s' : S)
      → IsValid mb
      → mbox_irq_handler bus fuel mb s ≡ done (mb', s')
      → IsValid mb'
        × ((new : List Request) × (requests mb' ≡ requests mb ++ new) × (length new ≤ 1))
  mbox_irq_handler_lem fuel mb mb' s s' v h =
      let g : Grows mb mb' = irq_Grows fuel mb mb' s s' v.0 h in
      (Grows-IsValid g v, Grows-requests g v.0)
