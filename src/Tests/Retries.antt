-- ===== src/Tests/Retries.antt =====
-- An operation that succeeds at its third attempt, and a mutation that is never acknowledged.
use goxdcr.Prelude.{
  ℕ, List, ◌>>=◌, set_at, ◌+◌, ◌≡◌, refl, Bool, true, false, some, ltb, ◌==◌, ◌⊎◌, inl, inr, [],
  ◌∷◌, done, arith, if◌then◌else◌,
}
use goxdcr.Prelude.Int64.{pos, mul_pos}
use goxdcr.Backoff.{
  Run, returns, aborts, fails_after_retry, rounds, signalled_rounds, exponential_backoff_executor,
  executor_with_finish_signal,
}
use goxdcr.Backoff.Rounds.{IsRun, executors-IsRun}
use goxdcr.Requests.{upr_mutation}
use goxdcr.Xmem.Buffer.{BufferedMcRequest, empty_request, RequestBuffer, new_req_buffer}
use goxdcr.Xmem.Resend.{
  RetryConfig, timeout_duration, Tick, unchanged, resent, gives_up, resend_if_timeout,
  resend_with_reset,
}
use goxdcr.Xmem.Resend.Runs.{SlotCall, checks, resets, checked, was_reset, slot_run}

-- It counts its attempts and fails with their number.
abbrev third_time : ℕ → ℕ × (ℕ ⊎ Bool)
third_time k = (k + 1, if ltb k 2 then inl k else inr true)

succeeds_after_waits :
    exponential_backoff_executor 2 third_time (pos 500) (pos 5) 0
    ≡ done (record { state = 3; waits = pos 500 ∷ pos 1000 ∷ []; result = returns true })
unfolding exponential_backoff_executor rounds mul_pos
succeeds_after_waits = refl

fails_in_the_end :
    exponential_backoff_executor 2 third_time (pos 500) (pos 1) 0
    ≡ done (record { state = 2; waits = pos 500 ∷ []; result = fails_after_retry 1 })
unfolding exponential_backoff_executor rounds mul_pos
fails_in_the_end = refl

aborts_in_between :
    executor_with_finish_signal 2 third_time (λ i. i == 1) (pos 500) (pos 5) 0
    ≡ done (record { state = 1; waits = pos 500 ∷ []; result = aborts })
unfolding executor_with_finish_signal signalled_rounds mul_pos
aborts_in_between = refl

executors-IsRun_example :
    ((run : Run ℕ ℕ Bool) × (executor_with_finish_signal 2 third_time
          (λ i. i == 1)
          (pos 500)
          (pos 5)
          0
        ≡ done run)
      × IsRun third_time (λ i. i == 1) 500 2 0 5 0 run)
    × (run : Run ℕ ℕ Bool) × (exponential_backoff_executor 2 third_time (pos 500) (pos 5) 0
        ≡ done run)
    × IsRun third_time (λ i. false) 500 2 0 5 0 run
executors-IsRun_example =
    executors-IsRun 2 third_time (λ i. i == 1) 500 5 0 (omega arith) (omega arith)

abbrev a_config : RetryConfig
a_config = record { max_retry = 1; resp_timeout = 10; max_retry_interval = 30 }

abbrev sent_slot : BufferedMcRequest
sent_slot = record empty_request {
  req = some (record {
    seqno = 1;
    opcode = upr_mutation;
    cas = 9;
    opaque = 0;
    vbucket = 3;
    key = 97 ∷ [];
    extras = [];
    body = 1 ∷ [];
    data_type = 0;
    unique_key = 97 ∷ 1 ∷ [];
  });
  sent_time = some 0;
}

abbrev sent_buffer : RequestBuffer
unfolding new_req_buffer
sent_buffer = record (new_req_buffer 2 0 2) { slots = λ i. sent_slot }

abbrev tick_at : ℕ → Tick
tick_at t = record { now = t; sends = true; during = λ buf. buf; now_after = t }

-- Early, late, late for the second time, not yet again, out of retries, and after that; then the resend
-- on the new connection, and late once more.
abbrev some_slot_calls : List SlotCall
some_slot_calls =
    checks (tick_at 5)
    ∷ checks (tick_at 20)
    ∷ checks (tick_at 35)
    ∷ checks (tick_at 45)
    ∷ checks (tick_at 60)
    ∷ checks (tick_at 99)
    ∷ resets (tick_at 100)
    ∷ checks (tick_at 120)
    ∷ []

backs_off : (timeout_duration a_config 1 ≡ 20) × (timeout_duration a_config 2 ≡ 30)
unfolding timeout_duration
backs_off = (refl, refl)

twice_and_out :
    (slot_run a_config some_slot_calls 0 sent_buffer >>= λ r. done r.1)
    ≡ done (
        checked unchanged
        ∷ checked (resent true)
        ∷ checked unchanged
        ∷ checked (resent true)
        ∷ checked gives_up
        ∷ checked unchanged
        ∷ was_reset
        ∷ checked (resent true)
        ∷ [])
unfolding sent_buffer slot_run resend_if_timeout resend_with_reset timeout_duration set_at
twice_and_out = refl
