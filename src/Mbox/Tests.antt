-- ===== src/Mbox/Tests.antt =====
-- Concrete runs of the mailbox, and the theorems at concrete inputs.
use mox_boot_builder.Prelude.{
  ◌≤◌, ◌+◌, ◌<◌, ◌≡◌, refl, arith, true, none, List, [], ◌∷◌, ◌++◌, length,
}
use mox_boot_builder.Bus.Sample.{quiet}
use mox_boot_builder.Mbox.{Handler, Request, Mailbox, power_on, register_cmd, is_set, done}
use mox_boot_builder.Mbox.Status.{sts_error, sts_cmd}
use mox_boot_builder.Mbox.Wire.{
  find_handler, enqueue, dequeue, serve, process_commands, mbox_irq_handler, interrupts,
}
use mox_boot_builder.Mbox.Invariant.{
  slot, IsValid, power_on-IsValid, register_cmd-IsValid, enqueue-IsValid,
}
use mox_boot_builder.Mbox.Queue.{requests, requests-enqueue, requests-dequeue}
use mox_boot_builder.Mbox.Interrupt.{mbox_irq_handler_lem}
use mox_boot_builder.Mbox.Serving.{process_commands-drains, EndsEmpty, total}
use mox_boot_builder.Mbox.Arrivals.{HostReads}
use mox_boot_builder.Mbox.Reach.{register, here, next, IsSafe, Reach-IsSafe}

-- A handler that returns its first argument.
abbrev echo : Handler (Unit {0})
echo args out s = (0, args, s)

abbrev fresh : Mailbox (Unit {0})
fresh = power_on Unit

abbrev ready : Mailbox (Unit {0})
ready = register_cmd 9 echo fresh

abbrev waiting : Mailbox (Unit {0})
waiting = enqueue 9 (7 ∷ []) ready

ready-IsValid : IsValid ready
ready-IsValid = register_cmd-IsValid 9 echo fresh power_on-IsValid

ready_handler : is_set (find_handler ready 9) ≡ true
unfolding find_handler register_cmd
ready_handler = refl

room : ready.cmd_queue_fill < 8
unfolding register_cmd
room = omega arith

waiting-IsValid : IsValid waiting
waiting-IsValid = enqueue-IsValid 9 (7 ∷ []) ready ready-IsValid room ready_handler

one_waits : 0 < waiting.cmd_queue_fill
unfolding enqueue register_cmd
one_waits = omega arith

quiet-HostReads : HostReads quiet
quiet-HostReads s = refl

idle_irq : mbox_irq_handler quiet 1 ready tt ≡ done (ready, tt)
unfolding mbox_irq_handler
idle_irq = refl

served : process_commands quiet 1 2 ((0, 1) ∷ []) waiting tt ≡ done (dequeue waiting, tt)
unfolding process_commands interrupts mbox_irq_handler serve enqueue register_cmd sts_error sts_cmd
served = refl

Reach-IsSafe_example : IsSafe quiet (record { mb = ready; hw = tt; busy = none })
Reach-IsSafe_example = Reach-IsSafe quiet tt (next here (register 9 echo))

enough_rounds : waiting.cmd_queue_fill + total ((1, 1) ∷ []) < 4
unfolding enqueue register_cmd total
enough_rounds = omega arith

process_commands-drains_example : EndsEmpty quiet 4 ((1, 1) ∷ []) waiting tt
process_commands-drains_example =
    process_commands-drains quiet 4 ((1, 1) ∷ []) waiting tt quiet-HostReads waiting-IsValid
      enough_rounds

mbox_irq_handler_lem_example :
    IsValid ready
    × ((new : List Request) × (requests ready ≡ requests ready ++ new) × (length new ≤ 1))
mbox_irq_handler_lem_example = mbox_irq_handler_lem quiet 1 ready ready tt tt ready-IsValid idle_irq

requests-enqueue_example :
    requests waiting ≡ requests ready ++ record { cmd = 9; args = 7 ∷ [] } ∷ []
requests-enqueue_example = requests-enqueue 9 (7 ∷ []) ready ready-IsValid.0 room

requests-dequeue_example : requests waiting ≡ slot waiting 0 ∷ requests (dequeue waiting)
requests-dequeue_example = requests-dequeue waiting one_waits
