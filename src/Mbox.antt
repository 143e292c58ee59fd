-- ===== src/Mbox.antt =====
-- wtmi/mbox.c and wtmi/mbox.h: the mailbox through which the application processor sends commands.
-- A handler acts on `S`, the rest of the firmware and its devices.
pub mod Status
pub mod Wire
pub mod Invariant
pub mod Queue
pub mod Interrupt
pub mod Arrivals
pub mod Serving
pub mod Reach
mod Tests
use mox_boot_builder.Prelude.{
  ℕ, ◌-◌, Bool, true, false, ◌&&◌, ◌||◌, not, Option, none, some, List, [], ltb, leb, if◌then◌else◌,
  get_or, set, replicate,
}

abbrev pub Handler : Type 0 → Type 0
Handler S = List ℕ → List ℕ → S → ℕ × List ℕ × S

-- `cmd_request_t`
pub record Request : Type 0 where
  pub cmd : ℕ
  pub args : List ℕ

abbrev pub no_request : Request
no_request = record { cmd = 0; args = [] }

abbrev pub max_args : ℕ
max_args = 16

abbrev pub cmd_queue_size : ℕ
cmd_queue_size = 8

-- The file's static variables.
pub record Mailbox (S : Type 0) : Type 0 where
  pub cmd_handlers : List (Option (Handler S))
  pub cmd_otp_read_handlers : List (Option (Handler S))
  pub cmd_otp_write_handlers : List (Option (Handler S))
  pub cmd_queue : List Request
  pub cmd_queue_fill : ℕ
  pub cmd_queue_first : ℕ

-- Static storage before `main` runs.
abbrev pub power_on : (S : Type 0) → Mailbox S
power_on S = record {
  cmd_handlers = replicate 16 none;
  cmd_otp_read_handlers = replicate 5 none;
  cmd_otp_write_handlers = replicate 5 none;
  cmd_queue = replicate 8 no_request;
  cmd_queue_fill = 0;
  cmd_queue_first = 0;
}

-- `spinning` is a wait for the host that the fuel did not outlast, `null_call` a call of `NULL`.
pub data Outcome (A : Type 0) : Type 0 where
  done : A → Outcome A
  spinning null_call : Outcome A

abbrev pub then_do : {A B : Type 0} → Outcome A → (A → Outcome B) → Outcome B
then_do (done a) k = k a
then_do spinning k = spinning
then_do null_call k = null_call

abbrev pub otp_read_1b : ℕ
otp_read_1b = 257

abbrev pub otp_write_1b : ℕ
otp_write_1b = 513

unfoldable pub is_marvell_read_cmd : ℕ → Bool
is_marvell_read_cmd cmd = leb otp_read_1b cmd && ltb (cmd - otp_read_1b) 5

unfoldable pub is_marvell_write_cmd : ℕ → Bool
is_marvell_write_cmd cmd = leb otp_write_1b cmd && ltb (cmd - otp_write_1b) 5

unfoldable pub is_marvell_cmd : ℕ → Bool
unfolding is_marvell_read_cmd is_marvell_write_cmd
is_marvell_cmd cmd = is_marvell_read_cmd cmd || is_marvell_write_cmd cmd

abbrev pub is_set {ℓ} : {A : Type ℓ} → Option A → Bool
is_set none = false
is_set (some a) = true

module _ {S : Type 0} where
  unfoldable pub marvell_cmd_handler : Mailbox S → ℕ → Option (Handler S)
  unfolding is_marvell_read_cmd is_marvell_write_cmd
  marvell_cmd_handler mb cmd =
      if is_marvell_read_cmd cmd
      then get_or mb.cmd_otp_read_handlers (cmd - otp_read_1b) none
      else if is_marvell_write_cmd cmd
      then get_or mb.cmd_otp_write_handlers (cmd - otp_write_1b) none
      else none

  -- `mbox_register_cmd`
  unfoldable pub register_cmd : ℕ → Handler S → Mailbox S → Mailbox S
  unfolding marvell_cmd_handler
  register_cmd cmd handler mb =
      if ltb cmd 16 && not (is_set (get_or mb.cmd_handlers cmd none))
      then record mb { cmd_handlers = set mb.cmd_handlers cmd (some handler) }
      else if is_marvell_read_cmd cmd && not (is_set (marvell_cmd_handler mb cmd))
      then record mb {
        cmd_otp_read_handlers = set mb.cmd_otp_read_handlers (cmd - otp_read_1b) (some handler);
      }
      else if is_marvell_write_cmd cmd && not (is_set (marvell_cmd_handler mb cmd))
      then record mb {
        cmd_otp_write_handlers = set mb.cmd_otp_write_handlers (cmd - otp_write_1b) (some handler);
      }
      else mb
