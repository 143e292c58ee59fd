-- ===== src/Mbox/Wire.antt =====
-- The part of mbox.c that touches the hardware: sending, serving and the interrupt handler.
use mox_boot_builder.Prelude.{
  ℕ, zero, suc, ◌+◌, ◌-◌, ◌*◌, ◌%◌, ◌^◌, Bool, ◌&&◌, not, Option, none, some, List, [], ◌∷◌,
  bit_and, bit_or, ltb, leb, ◌==◌, ◌!=◌, if◌then◌else◌, get_or, set, replicate,
}
use mox_boot_builder.Bus.{Bus, setbitsl}
use mox_boot_builder.Mbox.{
  Handler, Request, no_request, max_args, cmd_queue_size, Mailbox, Outcome, done, spinning,
  null_call, then_do, is_marvell_cmd, marvell_cmd_handler, is_set,
}
use mox_boot_builder.Mbox.Status.{sts, sts_cmd, sts_error, sts_marvell, badcmd, later, enosys}

abbrev pub mbox_in_arg : ℕ → ℕ
mbox_in_arg n = 0x40000000 + n * 4

abbrev pub mbox_in_cmd : ℕ
mbox_in_cmd = 0x40000040

abbrev pub mbox_out_status : ℕ
mbox_out_status = 0x40000080

abbrev pub mbox_out_arg : ℕ → ℕ
mbox_out_arg n = 0x40000084 + n * 4

abbrev pub mbox_fifo_status : ℕ
mbox_fifo_status = 0x400000c4

abbrev pub host_int_set : ℕ
host_int_set = 0x40000234

abbrev pub sp_int_reset : ℕ
sp_int_reset = 0x40000218

abbrev pub sp_int_mask : ℕ
sp_int_mask = 0x4000021c

abbrev pub sp_control : ℕ
sp_control = 0x40000220

abbrev pub host_int_cmd_complete_bit : ℕ
host_int_cmd_complete_bit = 1

abbrev pub host_int_cmd_queue_full_access : ℕ
host_int_cmd_queue_full_access = 2 ^ 17

-- The interrupts of a round, and those of the rounds after it.
abbrev pub next_arrivals : List (ℕ × ℕ) → ℕ × ℕ × List (ℕ × ℕ)
next_arrivals [] = (0, 0, [])
next_arrivals ((early, late) ∷ more) = (early, late, more)

module _ {S : Type 0} where
  -- The handler of a command, as the interrupt handler looks it up.
  unfoldable pub find_handler : Mailbox S → ℕ → Option (Handler S)
  unfolding marvell_cmd_handler
  find_handler mb cmd =
      if ltb cmd 16 && is_set (get_or mb.cmd_handlers cmd none)
      then get_or mb.cmd_handlers cmd none
      else marvell_cmd_handler mb cmd

  -- A request is stored behind the last one.
  unfoldable pub enqueue : ℕ → List ℕ → Mailbox S → Mailbox S
  enqueue cmd args mb = record mb {
    cmd_queue =
        set mb.cmd_queue ((mb.cmd_queue_first + mb.cmd_queue_fill) % cmd_queue_size)
          (record { cmd = cmd; args = args });
    cmd_queue_fill = mb.cmd_queue_fill + 1;
  }

  -- The end of a round of `mbox_process_commands`, with interrupts disabled.
  unfoldable pub dequeue : Mailbox S → Mailbox S
  dequeue mb = record mb {
    cmd_queue_first = (mb.cmd_queue_first + 1) % cmd_queue_size;
    cmd_queue_fill = mb.cmd_queue_fill - 1;
  }

  abbrev pub call : Option (Handler S) → List ℕ → List ℕ → S → Outcome (ℕ × List ℕ × S)
  call none args out s = null_call
  call (some handler) args out s = done (handler args out s)

  -- `if (MBOX_STS_CMD(status) == 0) status |= req->cmd;`
  abbrev pub fill_in_cmd : ℕ → ℕ × List ℕ × S → Outcome (ℕ × List ℕ × S)
  fill_in_cmd cmd (status, out, s) =
      done (if sts_cmd status == 0 then bit_or status cmd else status, out, s)

  -- The choice by command number in `mbox_process_commands`.
  unfoldable pub dispatch : Mailbox S → Request → List ℕ → S → Outcome (ℕ × List ℕ × S)
  unfolding is_marvell_cmd marvell_cmd_handler
  dispatch mb req out s =
      if ltb req.cmd 16
      then then_do (call (get_or mb.cmd_handlers req.cmd none) req.args out s) (fill_in_cmd req.cmd)
      else if is_marvell_cmd req.cmd
      then call (marvell_cmd_handler mb req.cmd) req.args out s
      else if leb 256 req.cmd
      then done (sts_marvell enosys, out, s)
      else done (sts req.cmd 0 badcmd, out, s)

module _ {S : Type 0} (bus : Bus S) where
  -- `for (i = …; i < MBOX_MAX_ARGS; i++) writel(args[i], MBOX_OUT_ARG(i));`
  unfoldable pub write_args : ℕ → ℕ → List ℕ → S → S
  write_args zero i args s = s
  write_args (suc n) i args s =
      write_args n (i + 1) args (bus.write (get_or args i 0) (mbox_out_arg i) s)

  unfoldable pub read_args : ℕ → ℕ → S → List ℕ × S
  read_args zero i s = ([], s)
  read_args (suc n) i s =
      let (v, s1) = bus.read (mbox_in_arg i) s in
      let (vs, s2) = read_args n (i + 1) s1 in (v ∷ vs, s2)

  abbrev set_bits : ℕ → ℕ → ℕ → S → S
  set_bits addr v mask s = (setbitsl bus addr v mask s).1

  abbrev answer : ℕ → Option (List ℕ) → S → S
  answer status none s =
      set_bits host_int_set host_int_cmd_complete_bit host_int_cmd_complete_bit
        (bus.write status mbox_out_status s)
  answer status (some args) s =
      set_bits host_int_set host_int_cmd_complete_bit host_int_cmd_complete_bit
        (bus.write status mbox_out_status (write_args max_args 0 args s))

  -- `mbox_send`; the fuel bounds the rounds in which the host has not read the last message.
  unfoldable pub mbox_send : ℕ → ℕ → Option (List ℕ) → S → Outcome S
  unfolding write_args
  mbox_send zero status args s = spinning
  mbox_send (suc fuel) status args s =
      let (v, s1) = bus.read host_int_set s in
      let again = mbox_send fuel status args (bus.pause 100000 s1) in
      if bit_and v host_int_cmd_complete_bit == 0 then done (answer status args s1) else again

  -- One round of the loop in `mbox_process_commands`, up to where it takes the request off.
  unfoldable pub serve : ℕ → Mailbox S → S → Outcome S
  unfolding dispatch mbox_send
  serve fuel mb s =
      then_do
        (dispatch mb (get_or mb.cmd_queue mb.cmd_queue_first no_request) (replicate max_args 0) s)
        λ r. if sts_error r.0 != later then mbox_send fuel r.0 (some r.1) r.2 else done r.2

  unfoldable pub mbox_has_cmd : S → Bool × S
  mbox_has_cmd s = let (v, s') = bus.read sp_control s in (bit_and v 1 != 0, s')

  abbrev clear_irq : S → S
  clear_irq s = set_bits sp_control 0 1 (set_bits sp_int_reset 2 2 s)

  -- What `mbox_irq_handler` does with a command number that it has read.
  unfoldable pub accept : ℕ → ℕ → Mailbox S → S → Outcome (Mailbox S × S)
  unfolding find_handler enqueue read_args mbox_send
  accept fuel cmd mb s =
      if is_set (find_handler mb cmd)
      then (let (args, s') = read_args max_args 0 s in done (enqueue cmd args mb, s'))
      else if leb 256 cmd
      then then_do (mbox_send fuel (sts_marvell enosys) none s) (λ s'. done (mb, s'))
      else then_do (mbox_send fuel (sts cmd 0 badcmd) none s) (λ s'. done (mb, s'))

  -- `mbox_irq_handler`
  unfoldable pub mbox_irq_handler : ℕ → Mailbox S → S → Outcome (Mailbox S × S)
  unfolding accept mbox_has_cmd
  mbox_irq_handler fuel mb s =
      let (pending, s1) = mbox_has_cmd s in
      if not pending
      then done (mb, s1)
      else if mb.cmd_queue_fill == cmd_queue_size
      then done (
        mb,
        clear_irq (
            set_bits host_int_set host_int_cmd_queue_full_access host_int_cmd_queue_full_access s1),
      )
      else (let (v, s2) = bus.read mbox_in_cmd s1 in
          then_do (accept fuel (bit_and v 0xffff) mb s2) (λ r. done (r.0, clear_irq r.1)))

  -- Interrupts that arrive one after the other.
  unfoldable pub interrupts : ℕ → ℕ → Mailbox S → S → Outcome (Mailbox S × S)
  unfolding mbox_irq_handler
  interrupts fuel zero mb s = done (mb, s)
  interrupts fuel (suc n) mb s = then_do (mbox_irq_handler fuel mb s) λ r. interrupts fuel n r.0 r.1

  -- `mbox_process_commands`, with the numbers of interrupts that arrive in each round: before the
  -- test of the loop, and while the request is worked on. None arrive in the rounds behind the list.
  unfoldable pub process_commands : ℕ → ℕ → List (ℕ × ℕ) → Mailbox S → S → Outcome (Mailbox S × S)
  unfolding serve dequeue interrupts
  process_commands fuel zero arrivals mb s = spinning
  process_commands fuel (suc rounds) arrivals mb s =
      let (early, late, later_rounds) = next_arrivals arrivals in
      then_do (interrupts fuel early mb s) λ r.
        let rest = then_do (serve fuel r.0 r.1) λ s1.
          then_do (interrupts fuel late r.0 s1)
            λ q. process_commands fuel rounds later_rounds (dequeue q.0) q.1 in
        if ltb 0 r.0.cmd_queue_fill then rest else done r

  -- The register writes of `mbox_init`; registering the interrupt handler is irq.c's part.
  unfoldable pub mbox_init : S → S
  mbox_init s = bus.write (2 ^ 8) mbox_fifo_status (set_bits sp_int_mask 0 2 s)

  unfoldable pub start_ap_at : ℕ → S → S
  start_ap_at addr s =
      set_bits host_int_set host_int_cmd_complete_bit host_int_cmd_complete_bit
        (bus.write 0x1003 mbox_out_status (bus.write addr (mbox_out_arg 0) s))
