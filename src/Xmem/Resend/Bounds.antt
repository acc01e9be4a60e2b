-- ===== src/Xmem/Resend/Bounds.antt =====
-- What the checks of a slot count, and how each kind of check moves the slot on.
use goxdcr.Prelude.{
  ℕ, suc, ◌+◌, ◌-◌, ◌≤◌, ◌<◌, ◌≡◌, refl, sym, ap, ◌∙◌, subst, Bool, true, false, some, Outcome,
  done, arith,
}
use goxdcr.Requests.{McRequest}
use goxdcr.Xmem.Buffer.{BufferedMcRequest, RequestBuffer}
use goxdcr.Xmem.Resend.{
  RetryConfig, timeout_duration, Tick, Checked, unchanged, resent, send_failed, gives_up,
}

-- The sends and the surrenders that a check counts for.
abbrev pub sends_of : Checked → ℕ
sends_of (resent true) = 1
sends_of _ = 0

abbrev pub surrenders_of : Checked → ℕ
surrenders_of gives_up = 1
surrenders_of _ = 0

abbrev pub bit_of : Bool → ℕ
bit_of true = 1
bit_of false = 0

-- A slot with a request that was sent and not yet acknowledged.
pub record IsWaiting (max_retry : ℕ) (slot : BufferedMcRequest) : Type 0 where
  pub request : McRequest
  pub has_request : slot.req ≡ some request
  pub time : ℕ
  pub was_sent : slot.sent_time ≡ some time
  pub in_bounds : slot.num_of_retry ≤ max_retry + 1
  pub at_end : slot.timedout ≡ true → slot.num_of_retry ≡ max_retry + 1

pub record Advances (max_retry : ℕ) (before after : BufferedMcRequest) (sends surrenders : ℕ)
    : Type 0 where
  pub waiting : IsWaiting max_retry after
  pub same_request : after.req ≡ before.req
  pub more_retries : after.num_of_retry ≡ before.num_of_retry + sends
  pub given_up : bit_of after.timedout ≡ bit_of before.timedout + surrenders

stays : (m : ℕ) (slot : BufferedMcRequest) → IsWaiting m slot → Advances m slot slot 0 0
stays m slot w = record {
  waiting = w;
  same_request = refl;
  more_retries = omega arith;
  given_up = omega arith;
}

surrenders :
    (m : ℕ) (slot : BufferedMcRequest)
    → IsWaiting m slot
    → slot.timedout ≡ false
    → m < slot.num_of_retry
    → Advances m slot (record slot { timedout = true }) 0 1
surrenders m slot w t l = record {
  waiting = record {
    request = w.request;
    has_request = w.has_request;
    time = w.time;
    was_sent = w.was_sent;
    in_bounds = w.in_bounds;
    at_end = λ e. omega (arith, w.in_bounds);
  };
  same_request = refl;
  more_retries = omega arith;
  given_up = ap (λ b. bit_of b + 1) (sym t);
}

retries :
    (m now : ℕ) (slot : BufferedMcRequest)
    → IsWaiting m slot
    → slot.timedout ≡ false
    → slot.num_of_retry ≤ m
    → Advances m slot
        (record slot { sent_time = some now; num_of_retry = suc slot.num_of_retry })
        1
        0
retries m now slot w t l = record {
  waiting = record {
    request = w.request;
    has_request = w.has_request;
    time = now;
    was_sent = refl;
    in_bounds = omega (arith, l);
    at_end = λ e. absurd (true_is_not_false (sym e ∙ t));
  };
  same_request = refl;
  more_retries = omega arith;
  given_up = omega arith;
}
  where
    true_is_not_false : true ≡ false → ⊥
    true_is_not_false e = ground arith

-- What other routines do leaves this slot alone.
abbrev pub LeavesAlone : ℕ → Tick → Type 0
LeavesAlone pos tick =
    (buf : RequestBuffer)
    → ((tick.during buf).slots pos ≡ buf.slots pos)
      × ((tick.during buf).sequences pos ≡ buf.sequences pos)

abbrev pub sent_again : ℕ → BufferedMcRequest → BufferedMcRequest
sent_again now slot = record slot { sent_time = some now; num_of_retry = suc slot.num_of_retry }

-- What a check does with a slot that waits: nothing, when its request has timed out or its time is not
-- up; with all retries used it gives up; and else it sends the request again.
pub data Verdict (config : RetryConfig) (tick : Tick) (before : BufferedMcRequest)
    : Checked → BufferedMcRequest → Type 0 where
  given_up_before :
      {after : BufferedMcRequest}
      → before.timedout ≡ true
      → after ≡ before
      → Verdict config tick before unchanged after
  gives_up_now :
      {after : BufferedMcRequest}
      → before.timedout ≡ false
      → config.max_retry < before.num_of_retry
      → after ≡ record before { timedout = true }
      → Verdict config tick before gives_up after
  waits :
      {after : BufferedMcRequest} {time : ℕ}
      → before.timedout ≡ false
      → before.num_of_retry ≤ config.max_retry
      → before.sent_time ≡ some time
      → tick.now - time ≤ timeout_duration config before.num_of_retry
      → after ≡ before
      → Verdict config tick before unchanged after
  resends :
      {after : BufferedMcRequest} {time : ℕ}
      → before.timedout ≡ false
      → before.num_of_retry ≤ config.max_retry
      → before.sent_time ≡ some time
      → timeout_duration config before.num_of_retry < tick.now - time
      → tick.sends ≡ true
      → after ≡ sent_again tick.now_after before
      → Verdict config tick before (resent true) after
  fails_to_send :
      {after : BufferedMcRequest} {time : ℕ}
      → before.timedout ≡ false
      → before.num_of_retry ≤ config.max_retry
      → before.sent_time ≡ some time
      → timeout_duration config before.num_of_retry < tick.now - time
      → tick.sends ≡ false
      → after ≡ before
      → Verdict config tick before send_failed after

pub Verdict-Advances :
    {config : RetryConfig} {tick : Tick} {before after : BufferedMcRequest} {what : Checked}
    → IsWaiting config.max_retry before
    → Verdict config tick before what after
    → Advances config.max_retry before after (sends_of what) (surrenders_of what)
Verdict-Advances {config} {before = b} w (given_up_before t e) =
    subst (λ x. Advances config.max_retry b x 0 0) (sym e) (stays _ b w)
Verdict-Advances {config} {before = b} w (gives_up_now t l e) =
    subst (λ x. Advances config.max_retry b x 0 1) (sym e) (surrenders _ b w t l)
Verdict-Advances {config} {before = b} w (waits t l s d e) =
    subst (λ x. Advances config.max_retry b x 0 0) (sym e) (stays _ b w)
Verdict-Advances {config} {tick = tick} {before = b} w (resends t l s d ok e) =
    subst (λ x. Advances config.max_retry b x 1 0) (sym e) (retries _ tick.now_after b w t l)
Verdict-Advances {config} {before = b} w (fails_to_send t l s d ok e) =
    subst (λ x. Advances config.max_retry b x 0 0) (sym e) (stays _ b w)

abbrev pub Result :
    RetryConfig → Tick → ℕ → RequestBuffer → Outcome (RequestBuffer × Checked) → Type 0
Result config tick pos buf o =
    (after : RequestBuffer) × (what : Checked) × (o ≡ done (after, what))
    × Verdict config tick (buf.slots pos) what (after.slots pos)
