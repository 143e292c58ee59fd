-- ===== src/Mbox/Invariant.antt =====
-- The invariant of mbox.c's static variables, and that each operation keeps it.
use mox_boot_builder.Prelude.{
  ℕ, suc, ◌+◌, ◌-◌, ◌%◌, ◌≤◌, ◌<◌, ◌≡◌, refl, ap, arith, Bool-cases, inl, inr, true, none, some,
  List, length, get_or, if◌then◌else◌, ◌==◌, ==→eq, length-set, get_or-set_ne, get_or-set_self,
}
use mox_boot_builder.Mbox.{
  Handler, Request, no_request, cmd_queue_size, Mailbox, power_on, is_set, register_cmd,
}
use mox_boot_builder.Mbox.Wire.{find_handler, enqueue, dequeue}

module _ {S : Type 0} where
  -- The slot of the request that is `k` places behind the first.
  abbrev pub slot : Mailbox S → ℕ → Request
  slot mb k = get_or mb.cmd_queue ((mb.cmd_queue_first + k) % cmd_queue_size) no_request

  pub record IsSized (mb : Mailbox S) : Type 0 where
    pub table : length mb.cmd_handlers ≡ 16
    pub read_table : length mb.cmd_otp_read_handlers ≡ 5
    pub write_table : length mb.cmd_otp_write_handlers ≡ 5
    pub slots : length mb.cmd_queue ≡ 8
    pub first_in : mb.cmd_queue_first < 8
    pub fill_in : mb.cmd_queue_fill ≤ 8

  -- Every request in the queue has a handler.
  abbrev pub IsServable : Mailbox S → Type 0
  IsServable mb = (k : ℕ) → k < mb.cmd_queue_fill → is_set (find_handler mb (slot mb k).cmd) ≡ true

  abbrev pub IsValid : Mailbox S → Type 0
  IsValid mb = IsSized mb × IsServable mb

  pub power_on-IsValid : IsValid (power_on S)
  power_on-IsValid = (omega arith, λ k h. absurd (omega arith))

  register_cmd-IsSized :
      (cmd : ℕ) (f : Handler S) (mb : Mailbox S) → IsSized mb → IsSized (register_cmd cmd f mb)
  unfolding register_cmd
  register_cmd-IsSized cmd f mb v = ground (
    arith,
    length-set mb.cmd_handlers cmd (some f),
    length-set mb.cmd_otp_read_handlers (cmd - 257) (some f),
    length-set mb.cmd_otp_write_handlers (cmd - 513) (some f),
  )

  -- Registering a command keeps the handler of every command that has one.
  pub find_handler-register_cmd :
      (cmd c : ℕ) (f : Handler S) (mb : Mailbox S)
      → is_set (find_handler mb c) ≡ true
      → find_handler (register_cmd cmd f mb) c ≡ find_handler mb c
  unfolding register_cmd find_handler
  find_handler-register_cmd cmd c f mb h = ground (
    arith,
    get_or-set_ne mb.cmd_handlers cmd c (some f) none,
    get_or-set_ne mb.cmd_otp_read_handlers (cmd - 257) (c - 257) (some f) none,
    get_or-set_ne mb.cmd_otp_write_handlers (cmd - 513) (c - 513) (some f) none,
  )

  -- Registering leaves the queue alone.
  pub register_cmd-queue :
      (cmd : ℕ) (f : Handler S) (mb : Mailbox S)
      → let mb' = register_cmd cmd f mb in
        (mb'.cmd_queue ≡ mb.cmd_queue)
        × (mb'.cmd_queue_fill ≡ mb.cmd_queue_fill)
        × (mb'.cmd_queue_first ≡ mb.cmd_queue_first)
  unfolding register_cmd
  register_cmd-queue cmd f mb = ground arith

  pub register_cmd-IsValid :
      (cmd : ℕ) (f : Handler S) (mb : Mailbox S) → IsValid mb → IsValid (register_cmd cmd f mb)
  register_cmd-IsValid cmd f mb v = (
    register_cmd-IsSized cmd f mb v.0,
    λ k h. ground (
      arith,
      register_cmd-queue cmd f mb,
      v.1 k,
      find_handler-register_cmd cmd (slot mb k).cmd f mb,
    ),
  )

  pub find_handler-enqueue :
      (cmd c : ℕ) (args : List ℕ) (mb : Mailbox S)
      → find_handler (enqueue cmd args mb) c ≡ find_handler mb c
  unfolding enqueue find_handler
  find_handler-enqueue cmd c args mb = refl

  pub find_handler-dequeue :
      (c : ℕ) (mb : Mailbox S) → find_handler (dequeue mb) c ≡ find_handler mb c
  unfolding dequeue find_handler
  find_handler-dequeue c mb = refl

  -- Storing a request changes no other slot of the queue, and holds it in the last one.
  pub slot-enqueue :
      (cmd k : ℕ) (args : List ℕ) (mb : Mailbox S)
      → IsSized mb
      → mb.cmd_queue_fill < 8
      → k ≤ mb.cmd_queue_fill
      → slot (enqueue cmd args mb) k
        ≡ (if k == mb.cmd_queue_fill then record { cmd = cmd; args = args } else slot mb k)
  unfolding enqueue
  slot-enqueue cmd k args mb v room h =
      let q = mb.cmd_queue in
      let r : Request = record { cmd = cmd; args = args } in
      let end = (mb.cmd_queue_first + mb.cmd_queue_fill) % 8 in
      let at = (mb.cmd_queue_first + k) % 8 in
      elim (Bool-cases (k == mb.cmd_queue_fill)) [
        | inl e ↦
            rw (e, ==→eq k mb.cmd_queue_fill e) (get_or-set_self q end r no_request (omega arith))
        | inr e ↦ rw e (get_or-set_ne q end at r no_request (ground arith))
      ]

  enqueue-IsSized :
      (cmd : ℕ) (args : List ℕ) (mb : Mailbox S)
      → IsSized mb
      → mb.cmd_queue_fill < 8
      → IsSized (enqueue cmd args mb)
  unfolding enqueue
  enqueue-IsSized cmd args mb v room =
      let at = (mb.cmd_queue_first + mb.cmd_queue_fill) % 8 in
      omega (arith, length-set mb.cmd_queue at (record { cmd = cmd; args = args }))

  pub enqueue-fill :
      (cmd : ℕ) (args : List ℕ) (mb : Mailbox S)
      → (enqueue cmd args mb).cmd_queue_fill ≡ mb.cmd_queue_fill + 1
  unfolding enqueue
  enqueue-fill cmd args mb = refl

  pub enqueue-IsValid :
      (cmd : ℕ) (args : List ℕ) (mb : Mailbox S)
      → IsValid mb
      → mb.cmd_queue_fill < 8
      → is_set (find_handler mb cmd) ≡ true
      → IsValid (enqueue cmd args mb)
  enqueue-IsValid cmd args mb v room h = (enqueue-IsSized cmd args mb v.0 room, servable)
    where
      servable : IsServable (enqueue cmd args mb)
      servable k lt =
          let below : k ≤ mb.cmd_queue_fill = omega (arith, enqueue-fill cmd args mb) in
          let kept = find_handler-enqueue cmd (slot (enqueue cmd args mb) k).cmd args mb in
          rw (kept, slot-enqueue cmd k args mb v.0 room below)
            (elim (Bool-cases (k == mb.cmd_queue_fill)) [
              | inl e ↦ rw e h
              | inr e ↦ rw e (v.1 k (ground arith))
            ])

  -- Taking the first request off moves the others one place forward.
  pub slot-dequeue : (k : ℕ) (mb : Mailbox S) → slot (dequeue mb) k ≡ slot mb (suc k)
  unfolding dequeue
  slot-dequeue k mb =
      let e : ((mb.cmd_queue_first + 1) % 8 + k) % 8 ≡ (mb.cmd_queue_first + suc k) % 8 =
        omega arith in
      ap (λ i. get_or mb.cmd_queue i no_request) e

  dequeue-IsSized :
      (mb : Mailbox S)
      → IsSized mb
      → IsSized (dequeue mb) × ((dequeue mb).cmd_queue_fill ≡ mb.cmd_queue_fill - 1)
  unfolding dequeue
  dequeue-IsSized mb v = (omega arith, refl)

  pub dequeue-IsValid : (mb : Mailbox S) → IsValid mb → IsValid (dequeue mb)
  dequeue-IsValid mb v = (
    (dequeue-IsSized mb v.0).0,
    λ k lt.
        rw (find_handler-dequeue, slot-dequeue k mb)
          (v.1 (suc k) (omega (arith, (dequeue-IsSized mb v.0).1))),
  )
