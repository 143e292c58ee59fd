-- ===== src/Mbox/Reach.antt =====
-- Commands of the main loop and interrupts in any order. `busy` is the request that
-- `mbox_process_commands` works on: interrupts are enabled while it does.
use mox_boot_builder.Prelude.{ℕ, ◌<◌, ◌≡◌, refl, arith, inl, inr, true, Option, none, some, ◌∙◌}
use mox_boot_builder.Bus.{Bus}
use mox_boot_builder.Mbox.{Handler, Request, Mailbox, done, is_set, power_on, register_cmd}
use mox_boot_builder.Mbox.Wire.{find_handler, enqueue, dequeue, mbox_irq_handler}
use mox_boot_builder.Mbox.Invariant.{
  slot, IsValid, slot-enqueue, enqueue-fill, find_handler-enqueue, find_handler-register_cmd,
  power_on-IsValid, register_cmd-IsValid, dequeue-IsValid, register_cmd-queue,
}
use mox_boot_builder.Mbox.Interrupt.{Grows, Grows-IsValid, irq_Grows}

pub record Config (S : Type 0) : Type 0 where
  pub mb : Mailbox S
  pub hw : S
  pub busy : Option Request

module _ {S : Type 0} (bus : Bus S) where
  pub data Step (c : Config S) : Config S → Type 0 where
    register : (cmd : ℕ) (f : Handler S) → Step c (record c { mb = register_cmd cmd f c.mb })
    interrupt :
        (fuel : ℕ) (mb' : Mailbox S) (hw' : S)
        → mbox_irq_handler bus fuel c.mb c.hw ≡ done (mb', hw')
        → Step c (record c { mb = mb'; hw = hw' })
    -- the devices, and the handler that runs, change the rest of the state
    elsewhere : (hw' : S) → Step c (record c { hw = hw' })
    -- `while (cmd_queue_fill > 0) { req = &cmd_queue[cmd_queue_first]; …`
    begin :
        c.busy ≡ none → 0 < c.mb.cmd_queue_fill → Step c (record c { busy = some (slot c.mb 0) })
    finish : (r : Request) → c.busy ≡ some r → Step c (record c { mb = dequeue c.mb; busy = none })

  pub data Reach (c : Config S) : Config S → Type 0 where
    here : Reach c c
    next : {d e : Config S} → Reach c d → Step d e → Reach c e

  -- The request that is being served still stands in its slot, and it has a handler.
  abbrev pub IsHeld : Mailbox S → Option Request → Type 0
  IsHeld mb none = Unit
  IsHeld mb (some r) =
      (slot mb 0 ≡ r) × (0 < mb.cmd_queue_fill) × (is_set (find_handler mb r.cmd) ≡ true)

  abbrev pub IsSafe : Config S → Type 0
  IsSafe c = IsValid c.mb × IsHeld c.mb c.busy

  Grows-IsHeld :
      (mb mb' : Mailbox S) (b : Option Request)
      → Grows mb mb'
      → IsValid mb
      → IsHeld mb b
      → IsHeld mb' b
  Grows-IsHeld mb mb' none g v h = tt
  Grows-IsHeld mb mb' (some r) (inl e) v h = rw e h
  Grows-IsHeld mb mb' (some r) (inr (cmd, args, room, known, e)) v h =
      let kept : slot (enqueue cmd args mb) 0 ≡ slot mb 0 =
        ground (arith, slot-enqueue cmd 0 args mb v.0 room (omega arith)) in
      rw e (
        kept ∙ h.0,
        omega (arith, enqueue-fill cmd args mb),
        rw (find_handler-enqueue cmd r.cmd args mb) h.2,
      )

  register_cmd-IsHeld :
      (cmd : ℕ) (f : Handler S) (mb : Mailbox S) (b : Option Request)
      → IsHeld mb b
      → IsHeld (register_cmd cmd f mb) b
  register_cmd-IsHeld cmd f mb none h = tt
  register_cmd-IsHeld cmd f mb (some r) h =
      let q = register_cmd-queue cmd f mb in
      let kept : slot (register_cmd cmd f mb) 0 ≡ slot mb 0 = rw (q.0, q.2) refl in
      (kept ∙ h.0, rw (q.1) (h.1), rw (find_handler-register_cmd cmd r.cmd f mb h.2) h.2)

  Step-IsSafe : {c d : Config S} → Step c d → IsSafe c → IsSafe d
  Step-IsSafe {c} (register cmd f) h =
      (register_cmd-IsValid cmd f c.mb h.0, register_cmd-IsHeld cmd f c.mb c.busy h.1)
  Step-IsSafe {c} (interrupt fuel mb' hw' e) h =
      let g = irq_Grows bus fuel c.mb mb' c.hw hw' h.0.0 e in
      (Grows-IsValid g h.0, Grows-IsHeld c.mb mb' c.busy g h.0 h.1)
  Step-IsSafe (elsewhere hw') h = h
  Step-IsSafe {c} (begin e w) h = (h.0, (refl, w, h.0.1 0 w))
  Step-IsSafe {c} (finish r e) h = (dequeue-IsValid c.mb h.0, tt)

  -- Whatever commands are registered and in whatever order interrupts and the main loop run from
  -- power-on, the mailbox invariant holds, and the request being served is still in its slot of the
  -- queue, not overwritten by an interrupt, and has a handler.
  pub Reach-IsSafe :
      (hw : S) {c : Config S}
      → Reach (record { mb = power_on S; hw = hw; busy = none }) c
      → IsSafe c
  Reach-IsSafe hw here = (power_on-IsValid, tt)
  Reach-IsSafe hw (next r st) = Step-IsSafe st (Reach-IsSafe hw r)
