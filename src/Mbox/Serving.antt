-- ===== src/Mbox/Serving.antt =====
-- What the interrupt handler and the command loop of mbox.c guarantee together.
use mox_boot_builder.Prelude.{
  ℕ, zero, suc, ◌+◌, ◌<◌, ◌≡◌, ◌≢◌, inl, inr, refl, ap, arith, Bool-cases, true, false, Option,
  none, some, List, [], ◌∷◌, ltb, ◌==◌, ◌!=◌, ◌%◌, bit_and, get_or, replicate,
}
use mox_boot_builder.Bus.{Bus}
use mox_boot_builder.Mbox.{
  Handler, Request, no_request, Mailbox, done, null_call, is_set, is_marvell_cmd,
  marvell_cmd_handler,
}
use mox_boot_builder.Mbox.Wire.{
  find_handler, dequeue, dispatch, mbox_send, serve, process_commands, call, host_int_set,
  next_arrivals,
}
use mox_boot_builder.Mbox.Status.{sts_error, later}
use mox_boot_builder.Mbox.Invariant.{IsValid, dequeue-IsValid}
use mox_boot_builder.Mbox.Queue.{from, requests}
use mox_boot_builder.Mbox.Arrivals.{HostReads, interrupts-IsAfter}

-- The interrupts of all rounds.
unfoldable pub total : List (ℕ × ℕ) → ℕ
total [] = 0
total ((early, late) ∷ more) = early + late + total more

total-next :
    (arrivals : List (ℕ × ℕ))
    → (next_arrivals arrivals).0 + (next_arrivals arrivals).1 + total (next_arrivals arrivals).2
      ≡ total arrivals
unfolding total
total-next [] = refl
total-next ((early, late) ∷ more) = refl

done-ne-null_call : {A : Type 0} (a : A) → done a ≢ null_call
done-ne-null_call a h = cc

module _ {S : Type 0} (bus : Bus S) where
  send-ne-null_call :
      (fuel status : ℕ) (args : Option (List ℕ)) (s : S)
      → mbox_send bus fuel status args s ≢ null_call
  unfolding mbox_send
  send-ne-null_call zero status args s h = cc
  send-ne-null_call (suc fuel) status args s h =
      let s1 = (bus.read host_int_set s).1 in
      elim (Bool-cases (bit_and (bus.read host_int_set s).0 1 == 0)) [
        | inl e ↦ cc (rw e at h)
        | inr e ↦ send-ne-null_call fuel status args (bus.pause 100000 s1) (rw e at h)
      ]

  call_set :
      (o : Option (Handler S)) (args out : List ℕ) (s : S)
      → is_set o ≡ true
      → (r : ℕ × List ℕ × S) × (call o args out s ≡ done r)
  call_set none args out s h = absurd (ground arith)
  call_set (some f) args out s h = (f args out s, refl)

  low_handler :
      (mb : Mailbox S) (cmd : ℕ)
      → cmd < 16
      → is_set (find_handler mb cmd) ≡ true
      → is_set (get_or mb.cmd_handlers cmd none) ≡ true
  unfolding find_handler
  low_handler mb cmd low h = elim (Bool-cases (is_set (get_or mb.cmd_handlers cmd none))) [
    | inl e ↦ e
    | inr e ↦ ground arith
  ]

  marvell_handler :
      (mb : Mailbox S) (cmd : ℕ)
      → ltb cmd 16 ≡ false
      → is_set (find_handler mb cmd) ≡ true
      → (is_marvell_cmd cmd ≡ true) × (is_set (marvell_cmd_handler mb cmd) ≡ true)
  unfolding find_handler is_marvell_cmd
  marvell_handler mb cmd high h = ground arith

  dispatch-done :
      (mb : Mailbox S) (req : Request) (out : List ℕ) (s : S)
      → is_set (find_handler mb req.cmd) ≡ true
      → (r : ℕ × List ℕ × S) × (dispatch mb req out s ≡ done r)
  unfolding dispatch
  dispatch-done mb req out s h = elim (Bool-cases (ltb req.cmd 16)) [
    | inl e ↦ rw e (
        let g = get_or mb.cmd_handlers req.cmd none in
        let (r, p) = call_set g req.args out s (low_handler mb req.cmd (ground arith) h) in
        rw p (_, refl))
    | inr e ↦
        let m = marvell_handler mb req.cmd e h in
        rw (e, m.0) (call_set (marvell_cmd_handler mb req.cmd) req.args out s m.1)
  ]

  first_handler :
      (mb : Mailbox S)
      → IsValid mb
      → 0 < mb.cmd_queue_fill
      → is_set (find_handler mb (get_or mb.cmd_queue mb.cmd_queue_first no_request).cmd) ≡ true
  first_handler mb v h =
      let e : (mb.cmd_queue_first + 0) % 8 ≡ mb.cmd_queue_first = omega (arith, v.0.first_in) in
      rw e at (v.1 0 h)

  -- A mailbox that satisfies the invariant never calls a null handler for its first request.
  pub serve-ne-null_call :
      (fuel : ℕ) (mb : Mailbox S) (s : S)
      → IsValid mb
      → 0 < mb.cmd_queue_fill
      → serve bus fuel mb s ≢ null_call
  unfolding serve
  serve-ne-null_call fuel mb s v h e =
      let req = get_or mb.cmd_queue mb.cmd_queue_first no_request in
      let (r, p) = dispatch-done mb req (replicate 16 0) s (first_handler mb v h) in
      elim (Bool-cases (sts_error r.0 != later)) [
        | inl y ↦ send-ne-null_call fuel r.0 (some r.1) r.2 (rw (p, y) at e)
        | inr n ↦ done-ne-null_call r.2 (rw (p, n) at e)
      ]

  serve-done :
      (mb : Mailbox S) (s : S)
      → HostReads bus
      → IsValid mb
      → 0 < mb.cmd_queue_fill
      → (s' : S) × (serve bus 1 mb s ≡ done s')
  unfolding serve mbox_send
  serve-done mb s ready v h =
      let req = get_or mb.cmd_queue mb.cmd_queue_first no_request in
      let (r, p) = dispatch-done mb req (replicate 16 0) s (first_handler mb v h) in
      elim (Bool-cases (sts_error r.0 != later)) [
        | inl y ↦ rw (p, y, ready r.2) (_, refl)
        | inr n ↦ rw (p, n) (_, refl)
      ]

  -- The loop ends with a valid mailbox in which no request waits.
  abbrev pub EndsEmpty : ℕ → List (ℕ × ℕ) → Mailbox S → S → Type 0
  EndsEmpty rounds arrivals mb s =
      (mb' : Mailbox S) × (s' : S) × (process_commands bus 1 rounds arrivals mb s ≡ done (mb', s'))
      × (requests mb' ≡ [])
      × IsValid mb'

  -- If the host reads every message, the loop ends with no request left, for any interrupts that
  -- arrive before and while a request is served: one round more than there are requests waiting and
  -- interrupts to come is enough. No null handler is called on the way, and the invariant still holds.
  pub process_commands-drains :
      (rounds : ℕ) (arrivals : List (ℕ × ℕ)) (mb : Mailbox S) (s : S)
      → HostReads bus
      → IsValid mb
      → mb.cmd_queue_fill + total arrivals < rounds
      → EndsEmpty rounds arrivals mb s
  unfolding process_commands
  process_commands-drains zero arrivals mb s ready v enough = absurd (omega arith)
  process_commands-drains (suc rounds) arrivals mb s ready v enough =
      let (early, late, later_rounds) = next_arrivals arrivals in
      let (mb1, s1, a) = interrupts-IsAfter bus early mb s ready v in
      elim (Bool-cases (ltb 0 mb1.cmd_queue_fill)) [
        | inr e ↦
            let empty : mb1.cmd_queue_fill ≡ 0 = ground arith in
            rw (a.returns, e) (mb1, s1, refl, ap (λ n. from mb1 0 n) empty, a.valid)
        | inl e ↦
            let (s2, p) = serve-done mb1 s1 ready a.valid (ground arith) in
            let (mb3, s3, b) = interrupts-IsAfter bus late mb1 s2 ready a.valid in
            let some_waits : 0 < mb3.cmd_queue_fill = ground (arith, b.more) in
            let fewer : (dequeue mb3).cmd_queue_fill + total later_rounds < rounds =
              unfold dequeue in
              omega (arith, total-next arrivals, a.at_most, b.at_most, enough, some_waits) in
            rw (a.returns, e, p, b.returns)
              (process_commands-drains rounds later_rounds (dequeue mb3) s3 ready
                (dequeue-IsValid mb3 b.valid) fewer)
      ]
