-- ===== src/Tests/Throttlers.antt =====
-- pipeline_svc/bandwidth_throttler.go and service_impl/throughput_throttler_service.go on small settings.
use goxdcr.Prelude.{◌+◌, ◌*◌, ◌/◌, ◌≤◌, ◌≡◌, refl, List, [], ◌∷◌, arith}
use goxdcr.Prelude.Int64.{◌-ℤ◌, pos}
use goxdcr.CasLoop.{Interference, LastPass, loaded_by, held_by}
use goxdcr.Bandwidth
use goxdcr.Bandwidth.{Grant, throttle, zero_ℤ}
use goxdcr.Bandwidth.Grants.{Granted, throttle-IsGrant}
use goxdcr.Bandwidth.Rate.{
  Op, asks, ticks, total_sent, final_quota, refills, IsBounded, total_sent-le,
}
use goxdcr.Throughput
use goxdcr.Throughput.{Meanwhile}
use goxdcr.Throughput.Tokens.{calm, LowResult, can_send_low-LowResult}

abbrev limited : Bandwidth.Throttler
limited = record {
  overall_bandwidth_limit = pos 2;
  number_of_source_nodes = 2;
  bandwidth_limit = pos 1048576;
  bandwidth_usage_quota = pos 1000;
}

-- Another sender takes ten bytes between the load and the swap.
abbrev ten_bytes : Interference
ten_bytes = record { before_load = λ x. x; before_swap = λ x. pos 990 }

throttle-IsGrant_example :
    (let result = throttle 10 (ten_bytes ∷ []) (pos 800) (pos 400) (pos 200) limited in
      (p : LastPass (ten_bytes ∷ [])) × Granted 10
        (pos 1048576)
        (pos 800)
        (pos 400)
        (pos 200)
        (loaded_by p (pos 1000))
        (held_by p (pos 1000))
        result.0
        result.1.bandwidth_usage_quota)
throttle-IsGrant_example =
    throttle-IsGrant 10 (ten_bytes ∷ []) (pos 800) (pos 400) (pos 200) limited
      (record {
        n_nonneg = refl;
        m_nonneg = refl;
        f_nonneg = refl;
        n_small = (omega arith, omega arith);
        m_small = (omega arith, omega arith);
        f_small = (omega arith, omega arith);
      })
      ((λ x s. s, λ x s. (omega arith, omega arith)), tt) (omega arith, omega arith) refl

abbrev some_ops : List Op
some_ops = asks 800 400 200 ∷ ticks ∷ asks 500 300 200 ∷ []

total_sent-le_example :
    (total_sent 10 5000 some_ops (pos 300) ≤ 300 + refills 10 5000 some_ops * (5000 / 10) + 200)
    × IsBounded 10 5000 200 (final_quota 10 5000 some_ops (pos 300))
total_sent-le_example =
    total_sent-le 10 5000 200 (omega arith) (omega arith) (omega arith) (omega arith) some_ops
      (pos 300)
      ((omega arith, omega arith, omega arith), (tt, ((omega arith, omega arith, omega arith), tt)))
      (record { credit = omega arith; debt = omega arith })

abbrev five_tokens : Throughput.Throttler
five_tokens = record Throughput.new_throughput_throttler_svc {
  throughput_limit = pos 100;
  throughput_quota = pos 3;
  reassigned_high_tokens = pos 2;
}

-- Another sender takes a token of the quota between the load and the swap.
abbrev one_token : Meanwhile
one_token = record calm {
  before_swap = λ t. record t { throughput_quota = t.throughput_quota -ℤ pos 1 };
}

one_token_each : (Throughput.can_send_low (one_token ∷ []) five_tokens).1.throughput_quota ≡ pos 1
unfolding Throughput.can_send_low ◌-ℤ◌ Throughput.new_throughput_throttler_svc
one_token_each = refl

can_send_low-LowResult_example :
    LowResult (one_token ∷ []) five_tokens (Throughput.can_send_low (one_token ∷ []) five_tokens)
can_send_low-LowResult_example = can_send_low-LowResult (one_token ∷ []) five_tokens
