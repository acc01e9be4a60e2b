-- ===== src/Xmem/Resend/Runs.antt =====
-- How often a mutation is sent again, and when the nozzle gives up on it.
use goxdcr.Prelude.{ℕ, ◌+◌, ◌≤◌, ◌≡◌, List, [], ◌∷◌, Outcome, done, ◌>>=◌}
use goxdcr.Xmem.Buffer.{BufferedMcRequest, RequestBuffer}
use goxdcr.Xmem.Resend.{RetryConfig, Tick, Checked, resend_if_timeout, resend_with_reset}
use goxdcr.Xmem.Resend.Bounds.{sends_of, surrenders_of, bit_of, IsWaiting, LeavesAlone}
use goxdcr.Xmem.Resend.Bounds.{Verdict}
use goxdcr.Xmem.Resend.Resets.{IsRenewed}

-- What is done with a slot: a check, or a resend on a new connection.
pub data SlotCall : Type 0 where
  checks resets : Tick → SlotCall

pub data Entry : Type 0 where
  checked : Checked → Entry
  was_reset : Entry

abbrev slot_call : RetryConfig → SlotCall → ℕ → RequestBuffer → Outcome (RequestBuffer × Entry)
slot_call config (checks tick) pos buf =
    resend_if_timeout config tick pos buf >>= λ r. done (r.0, checked r.1)
slot_call config (resets tick) pos buf = done ((resend_with_reset tick pos buf).0, was_reset)

-- The calls of one slot, one after the other, and what each did.
unfoldable pub slot_run :
    RetryConfig → List SlotCall → ℕ → RequestBuffer → Outcome (RequestBuffer × List Entry)
slot_run config [] pos buf = done (buf, [])
slot_run config (call ∷ rest) pos buf = slot_call config call pos buf >>= λ r.
    slot_run config rest pos r.0 >>= λ q. done (q.0, r.1 ∷ q.1)

abbrev CallLeavesAlone : ℕ → SlotCall → Type 0
CallLeavesAlone pos (checks tick) = LeavesAlone pos tick
CallLeavesAlone pos (resets tick) = LeavesAlone pos tick

abbrev pub AllLeaveAlone : ℕ → List SlotCall → Type 0
AllLeaveAlone pos [] = Unit
AllLeaveAlone pos (call ∷ rest) = CallLeavesAlone pos call × AllLeaveAlone pos rest

-- How often the checks have resent the request, and given up on it.
abbrev pub total_sends : List Entry → ℕ
total_sends [] = 0
total_sends (checked c ∷ rest) = sends_of c + total_sends rest
total_sends (was_reset ∷ rest) = total_sends rest

abbrev pub total_surrenders : List Entry → ℕ
total_surrenders [] = 0
total_surrenders (checked c ∷ rest) = surrenders_of c + total_surrenders rest
total_surrenders (was_reset ∷ rest) = total_surrenders rest

abbrev pub total_resets : List Entry → ℕ
total_resets [] = 0
total_resets (checked c ∷ rest) = total_resets rest
total_resets (was_reset ∷ rest) = 1 + total_resets rest

-- The resends that the resets allow anew.
abbrev pub allowed_anew : ℕ → List Entry → ℕ
allowed_anew max_retry [] = 0
allowed_anew max_retry (checked c ∷ rest) = allowed_anew max_retry rest
allowed_anew max_retry (was_reset ∷ rest) = (max_retry + 1) + allowed_anew max_retry rest

pub record Spends (max_retry : ℕ) (before after : BufferedMcRequest) (log : List Entry)
    : Type 0 where
  pub waiting : IsWaiting max_retry after
  pub same_request : after.req ≡ before.req
  pub sends :
      before.num_of_retry + total_sends log ≤ after.num_of_retry + allowed_anew max_retry log
  pub surrenders :
      bit_of before.timedout + total_surrenders log ≤ bit_of after.timedout + total_resets log
  pub exact :
      total_resets log ≡ 0
      → (after.num_of_retry ≡ before.num_of_retry + total_sends log)
        × (bit_of after.timedout ≡ bit_of before.timedout + total_surrenders log)

-- That each entry of a log, for each call, is what the call makes of the slot as it then is.
pub data Explains (config : RetryConfig)
    : List SlotCall → BufferedMcRequest → List Entry → BufferedMcRequest → Type 0 where
  no_call : {slot : BufferedMcRequest} → Explains config [] slot [] slot
  a_check :
      {tick : Tick} {calls : List SlotCall} {slot next last : BufferedMcRequest} {what : Checked}
      {log : List Entry}
      → Verdict config tick slot what next
      → Explains config calls next log last
      → Explains config (checks tick ∷ calls) slot (checked what ∷ log) last
  a_reset :
      {tick : Tick} {calls : List SlotCall} {slot next last : BufferedMcRequest} {log : List Entry}
      → IsRenewed config.max_retry slot next
      → Explains config calls next log last
      → Explains config (resets tick ∷ calls) slot (was_reset ∷ log) last
