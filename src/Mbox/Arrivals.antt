-- ===== src/Mbox/Arrivals.antt =====
-- The interrupts of mbox.c that arrive one after the other, when the host reads its messages.
use mox_boot_builder.Prelude.{
  ℕ, zero, suc, ◌+◌, ◌≤◌, ◌≡◌, inl, inr, refl, arith, Bool-cases, leb, ◌==◌, bit_and,
}
use mox_boot_builder.Bus.{Bus}
use mox_boot_builder.Mbox.{Mailbox, done, is_set}
use mox_boot_builder.Mbox.Wire.{
  find_handler, enqueue, mbox_send, host_int_set, accept, mbox_irq_handler, mbox_has_cmd,
  mbox_in_cmd, interrupts,
}
use mox_boot_builder.Mbox.Invariant.{IsValid}
use mox_boot_builder.Mbox.Interrupt.{Grows, Grows-IsValid, irq_Grows}

module _ {S : Type 0} (bus : Bus S) where
  -- The host has read the last message whenever it is asked.
  abbrev pub HostReads : Type 0
  HostReads = (s : S) → bit_and (bus.read host_int_set s).0 1 ≡ 0

  accept-done :
      (cmd : ℕ) (mb : Mailbox S) (s : S)
      → HostReads
      → (r : Mailbox S × S) × (accept bus 1 cmd mb s ≡ done r)
  unfolding accept mbox_send
  accept-done cmd mb s ready = elim (Bool-cases (is_set (find_handler mb cmd))) [
    | inl e ↦ rw e (_, refl)
    | inr e ↦ elim (Bool-cases (leb 256 cmd)) [
      | inl l ↦ rw (e, l, ready s) (_, refl)
      | inr l ↦ rw (e, l, ready s) (_, refl)
    ]
  ]

  irq-done :
      (mb : Mailbox S) (s : S)
      → HostReads
      → (r : Mailbox S × S) × (mbox_irq_handler bus 1 mb s ≡ done r)
  unfolding mbox_irq_handler
  irq-done mb s ready = elim (Bool-cases (mbox_has_cmd bus s).0) [
    | inr e ↦ rw e (_, refl)
    | inl e ↦ elim (Bool-cases (mb.cmd_queue_fill == 8)) [
      | inl full ↦ rw (e, full) (_, refl)
      | inr room ↦
          let r = bus.read mbox_in_cmd (mbox_has_cmd bus s).1 in
          let (q, p) = accept-done (bit_and r.0 0xffff) mb r.1 ready in rw (e, room, p) (_, refl)
    ]
  ]

  Grows-fill :
      {mb mb' : Mailbox S}
      → Grows mb mb'
      → (mb.cmd_queue_fill ≤ mb'.cmd_queue_fill) × (mb'.cmd_queue_fill ≤ mb.cmd_queue_fill + 1)
  unfolding enqueue
  Grows-fill (inl e) = rw e (omega arith, omega arith)
  Grows-fill (inr (cmd, args, room, h, e)) = rw e (omega arith, omega arith)

  -- The interrupts are over, and have stored at most `n` requests.
  pub record IsAfter (n : ℕ) (mb : Mailbox S) (s : S) (mb' : Mailbox S) (s' : S) : Type 0 where
    pub returns : interrupts bus 1 n mb s ≡ done (mb', s')
    pub more : mb.cmd_queue_fill ≤ mb'.cmd_queue_fill
    pub at_most : mb'.cmd_queue_fill ≤ mb.cmd_queue_fill + n
    pub valid : IsValid mb'

  pub interrupts-IsAfter :
      (n : ℕ) (mb : Mailbox S) (s : S)
      → HostReads
      → IsValid mb
      → (mb' : Mailbox S) × (s' : S) × IsAfter n mb s mb' s'
  unfolding interrupts
  interrupts-IsAfter zero mb s ready v =
      (mb, s, record { returns = refl; more = omega arith; at_most = omega arith; valid = v })
  interrupts-IsAfter (suc n) mb s ready v =
      let (r, p) = irq-done mb s ready in
      let g : Grows mb r.0 = irq_Grows bus 1 mb r.0 s r.1 v.0 p in
      let f = Grows-fill g in
      let (mb', s', a) = interrupts-IsAfter n r.0 r.1 ready (Grows-IsValid g v) in
      (
        mb',
        s',
        record {
          returns = rw p a.returns;
          more = omega (arith, f.0, a.more);
          at_most = omega (arith, f.1, a.at_most);
          valid = a.valid;
        },
      )
