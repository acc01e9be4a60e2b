-- ===== src/Xmem/Resend/Checks.antt =====
-- One check of a slot that holds an unanswered request.
use goxdcr.Prelude.{
  ℕ, ◌≤◌, ◌<◌, set_at_same, ◌≡◌, refl, sym, ap, ◌∙◌, subst, Bool, true, false, some, done, arith,
  ltb, ltb→lt, ◌==◌, ==_iff, Bool-cases, inl, inr, ◌-◌, ◌⊎◌, none, if◌then◌else◌,
}
use goxdcr.Requests.{McRequest}
use goxdcr.Xmem.Buffer.{BufferedMcRequest, RequestBuffer}
use goxdcr.Xmem.Resend.{
  RetryConfig, timeout_duration, Tick, unchanged, resent, send_failed, gives_up, set_slot,
  note_resent, resend, check_waiting, resend_if_timeout,
}
use goxdcr.Xmem.Resend.Bounds.{
  IsWaiting, LeavesAlone, sent_again, given_up_before, gives_up_now, waits, resends, fails_to_send,
  Result,
}

module _ (config : RetryConfig) (pos : ℕ) (tick : Tick) (buf : RequestBuffer) where
  resend-Result :
      (w : IsWaiting config.max_retry (buf.slots pos))
      → (buf.slots pos).timedout ≡ false
      → (buf.slots pos).num_of_retry ≤ config.max_retry
      → timeout_duration config (buf.slots pos).num_of_retry < tick.now - w.time
      → LeavesAlone pos tick
      → Result config tick pos buf (done (resend tick pos buf))
  resend-Result w t l late k = sent tick.sends refl
    where
      after : RequestBuffer
      after = tick.during buf

      same : after.slots pos ≡ buf.slots pos
      same = (k buf).0

      new : BufferedMcRequest
      new = sent_again tick.now_after (after.slots pos)

      noted : (set_slot pos new after).slots pos ≡ sent_again tick.now_after (buf.slots pos)
      noted = set_at_same pos new after.slots ∙ ap (sent_again tick.now_after) same

      has : (after.slots pos).req ≡ some w.request
      has = ap (λ x. x.req) same ∙ w.has_request

      agrees : (after.sequences pos == buf.sequences pos) ≡ true
      agrees = (==_iff (after.sequences pos) (buf.sequences pos)).1 (k buf).1

      noted_eq :
          note_resent pos (buf.sequences pos) tick.now_after after
          ≡ (set_slot pos new after, resent true)
      noted_eq =
          ap
            (λ o. elim o [
              | none ↦ (after, resent false)
              | some r ↦
                  if after.sequences pos == buf.sequences pos
                  then (set_slot pos new after, resent true)
                  else (after, resent false)
            ])
            has
          ∙ ap (λ b. if b then (set_slot pos new after, resent true) else (after, resent false))
              agrees

      sent : (b : Bool) → tick.sends ≡ b → Result config tick pos buf (done (resend tick pos buf))
      sent false e = (after, send_failed, rw e refl, fails_to_send t l w.was_sent late e same)
      sent true e = (
        set_slot pos new after,
        resent true,
        rw e (ap done noted_eq),
        resends t l w.was_sent late e noted,
      )

  waits_on :
      (sent : ℕ)
      → ltb config.max_retry (buf.slots pos).num_of_retry ≡ false
      → (buf.slots pos).sent_time ≡ some sent
      → check_waiting config tick pos buf ≡ (
          if ltb (timeout_duration config (buf.slots pos).num_of_retry) (tick.now - sent)
          then done (resend tick pos buf)
          else done (buf, unchanged))
  waits_on sent l e = rw l rw e refl

  check_waiting-Result :
      IsWaiting config.max_retry (buf.slots pos)
      → (buf.slots pos).timedout ≡ false
      → LeavesAlone pos tick
      → Result config tick pos buf (check_waiting config tick pos buf)
  check_waiting-Result w t k =
      split (Bool-cases (ltb config.max_retry (buf.slots pos).num_of_retry)) (
        Bool-cases (ltb (timeout_duration config (buf.slots pos).num_of_retry) (tick.now - w.time)))
    where
      late : Bool
      late = ltb (timeout_duration config (buf.slots pos).num_of_retry) (tick.now - w.time)

      chosen :
          {b : Bool}
          → late ≡ b
          → (if late then done (resend tick pos buf) else done (buf, unchanged))
            ≡ (if b then done (resend tick pos buf) else done (buf, unchanged))
      chosen = ap (λ b. if b then done (resend tick pos buf) else done (buf, unchanged))

      split :
          (ltb config.max_retry (buf.slots pos).num_of_retry ≡ true)
            ⊎ (ltb config.max_retry (buf.slots pos).num_of_retry ≡ false)
          → (late ≡ true) ⊎ (late ≡ false)
          → Result config tick pos buf (check_waiting config tick pos buf)
      split (inl l) b = (
        set_slot pos (record (buf.slots pos) { timedout = true }) buf,
        gives_up,
        rw l refl,
        gives_up_now t (ltb→lt _ _ l) (set_at_same pos _ buf.slots),
      )
      split (inr l) (inl b) =
          subst (Result config tick pos buf) (sym (waits_on w.time l w.was_sent ∙ chosen b))
            (resend-Result w t (ground arith) (ltb→lt _ _ b) k)
      split (inr l) (inr b) = (
        buf,
        unchanged,
        waits_on w.time l w.was_sent ∙ chosen b,
        waits t (ground arith) w.was_sent (ground arith) refl,
      )

  is_checked :
      (r : McRequest) (b : Bool)
      → (buf.slots pos).req ≡ some r
      → (buf.slots pos).timedout ≡ b
      → resend_if_timeout config tick pos buf
        ≡ (if b then done (buf, unchanged) else check_waiting config tick pos buf)
  unfolding resend_if_timeout
  is_checked r b e t =
      let head : resend_if_timeout config tick pos buf ≡ (
          if (buf.slots pos).timedout
          then done (buf, unchanged)
          else check_waiting config tick pos buf) =
        ap
          (λ o. elim o [
            | none ↦ done (buf, unchanged)
            | some r ↦
                if (buf.slots pos).timedout
                then done (buf, unchanged)
                else check_waiting config tick pos buf
          ])
          e in
      head ∙ ap (λ b. if b then done (buf, unchanged) else check_waiting config tick pos buf) t

  pub resend_if_timeout-Result :
      IsWaiting config.max_retry (buf.slots pos)
      → LeavesAlone pos tick
      → Result config tick pos buf (resend_if_timeout config tick pos buf)
  resend_if_timeout-Result w k = elim (Bool-cases (buf.slots pos).timedout) [
    | inl t ↦ (buf, unchanged, is_checked w.request true w.has_request t, given_up_before t refl)
    | inr t ↦
        subst (Result config tick pos buf) (sym (is_checked w.request false w.has_request t))
          (check_waiting-Result w t k)
  ]
