-- ===== src/Xmem/Resend.antt =====
-- parts/xmem_nozzle.go, resendIfTimeout, timeoutDuration and resendWithReset: the check that sends a
-- mutation again when its response is late, and the resend on a new connection. Times are natural numbers and durations stay below 2 ^ 62.
pub mod Bounds
pub mod Checks
pub mod Resets
pub mod Runs
use goxdcr.Prelude.{
  ℕ, zero, suc, ◌-◌, ◌*◌, Bool, true, false, not, ◌||◌, Option, none, some, ltb, ◌==◌,
  if◌then◌else◌, set_at, Outcome, done, panics,
}
use goxdcr.Xmem.Buffer.{BufferedMcRequest, RequestBuffer}

pub record RetryConfig : Type 0 where
  pub max_retry : ℕ
  pub resp_timeout : ℕ
  pub max_retry_interval : ℕ

abbrev pub doubled : ℕ → ℕ → ℕ → ℕ
doubled longest duration zero = duration
doubled longest duration (suc n) =
    let rest = doubled longest (duration * 2) n in
    if ltb longest (duration * 2) then longest else rest

unfoldable pub timeout_duration : RetryConfig → ℕ → ℕ
timeout_duration config num_of_retry =
    doubled config.max_retry_interval config.resp_timeout num_of_retry

-- One check of a slot: the time, whether the send succeeds, what other routines do to the buffer while
-- the slot is not locked, and the time after that.
pub record Tick : Type 0 where
  pub now : ℕ
  pub sends : Bool
  pub during : RequestBuffer → RequestBuffer
  pub now_after : ℕ

-- `resent modified` is a send that succeeded; `gives_up` asks for a repair of the
-- connection, whose resends are steps of their own.
pub data Checked : Type 0 where
  unchanged : Checked
  resent : Bool → Checked
  send_failed : Checked
  gives_up : Checked

abbrev pub set_slot : ℕ → BufferedMcRequest → RequestBuffer → RequestBuffer
set_slot pos slot buf = record buf { slots = set_at pos slot buf.slots }

abbrev pub note_resent : ℕ → ℕ → ℕ → RequestBuffer → RequestBuffer × Checked
note_resent pos old_sequence now after = elim (after.slots pos).req [
  | none ↦ (after, resent false)
  | some r ↦
      if after.sequences pos == old_sequence
      then (
        set_slot pos
            (record (after.slots pos) {
              sent_time = some now;
              num_of_retry = suc (after.slots pos).num_of_retry;
            })
            after,
        resent true,
      )
      else (after, resent false)
]

abbrev pub resend : Tick → ℕ → RequestBuffer → RequestBuffer × Checked
resend tick pos buf =
    let after = tick.during buf in
    if tick.sends
    then note_resent pos (buf.sequences pos) tick.now_after after
    else (after, send_failed)

abbrev pub check_waiting :
    RetryConfig → Tick → ℕ → RequestBuffer → Outcome (RequestBuffer × Checked)
check_waiting config tick pos buf =
    let slot = buf.slots pos in
    if ltb config.max_retry slot.num_of_retry
    then done (set_slot pos (record slot { timedout = true }) buf, gives_up)
    else elim slot.sent_time [
      | none ↦ panics
      | some sent ↦
          if ltb (timeout_duration config slot.num_of_retry) (tick.now - sent)
          then done (resend tick pos buf)
          else done (buf, unchanged)
    ]

unfoldable pub resend_if_timeout :
    RetryConfig → Tick → ℕ → RequestBuffer → Outcome (RequestBuffer × Checked)
resend_if_timeout config tick pos buf = elim (buf.slots pos).req [
  | none ↦ done (buf, unchanged)
  | some r ↦
      if (buf.slots pos).timedout then done (buf, unchanged) else check_waiting config tick pos buf
]

-- What a resend on a new connection did: whether the request was marked as changed.
pub data Reset : Type 0 where
  no_request : Reset
  reset_failed : Bool → Reset
  reset_sent : Bool → Reset

abbrev pub fresh_again : BufferedMcRequest → BufferedMcRequest
fresh_again slot = record slot { num_of_retry = 0; timedout = false }

abbrev pub note_reset : ℕ → ℕ → ℕ → Bool → RequestBuffer → RequestBuffer × Reset
note_reset pos old_sequence now changed after = elim (after.slots pos).req [
  | none ↦ (after, reset_sent changed)
  | some r ↦
      if after.sequences pos == old_sequence
      then (set_slot pos (record (after.slots pos) { sent_time = some now }) after, reset_sent true)
      else (after, reset_sent changed)
]

-- `resendWithReset`, which a repaired connection runs on every slot.
unfoldable pub resend_with_reset : Tick → ℕ → RequestBuffer → RequestBuffer × Reset
resend_with_reset tick pos buf =
    let slot = buf.slots pos in
    let changed = not (slot.num_of_retry == 0) || slot.timedout in
    let after = tick.during (set_slot pos (fresh_again slot) buf) in
    elim slot.req [
      | none ↦ (buf, no_request)
      | some r ↦
          if tick.sends
          then note_reset pos (buf.sequences pos) tick.now_after changed after
          else (after, reset_failed changed)
    ]
