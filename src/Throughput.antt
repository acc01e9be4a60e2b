-- ===== src/Throughput.antt =====
-- service_impl/throughput_throttler_service.go: the tokens of high and low priority replications. Each
-- operation is a function on the throttler's fields; `Meanwhile` is what other goroutines do to them
-- between the steps of a loop.
pub mod Tokens
use goxdcr.Prelude.{
  ℕ, ◌+◌, ◌%◌, ◌^◌, Bool, true, false, not, ◌&&◌, ◌||◌, Option, none, some, List, [], ◌∷◌, ◌==◌,
  if◌then◌else◌,
}
use goxdcr.Prelude.Int64.{ℤ, pos, ◌+ℤ◌, ◌-ℤ◌, div_pos, ltb_ℤ, leb_ℤ, eqb_ℤ}

pub record Throttler : Type 0 where
  pub throughput_limit : ℤ
  pub throughput_quota : ℤ
  pub high_tokens : ℤ
  pub unused_high_tokens : ℤ
  pub reassigned_high_tokens : ℤ
  pub max_reassignable_tokens_per_slot : ℤ
  pub need_to_calibrate : Bool
  pub update_count : ℕ  -- uint64
  pub once_done : Bool  -- whether `once` has run

abbrev pub zero_ℤ : ℤ
zero_ℤ = pos 0

abbrev pub one_ℤ : ℤ
one_ℤ = pos 1

unfoldable pub new_throughput_throttler_svc : Throttler
new_throughput_throttler_svc = record {
  throughput_limit = zero_ℤ;
  throughput_quota = zero_ℤ;
  high_tokens = zero_ℤ;
  unused_high_tokens = zero_ℤ;
  reassigned_high_tokens = zero_ℤ;
  max_reassignable_tokens_per_slot = zero_ℤ;
  need_to_calibrate = true;
  update_count = 0;
  once_done = false;
}

-- What others do in one pass before each load, of the limit, of the quota and of the reassigned tokens,
-- and before the swap.
pub record Meanwhile : Type 0 where
  pub before_limit : Throttler → Throttler
  pub before_quota : Throttler → Throttler
  pub before_reassigned : Throttler → Throttler
  pub before_swap : Throttler → Throttler

-- The state that each load of a pass reads.
abbrev pub at_limit : Meanwhile → Throttler → Throttler
at_limit m t = m.before_limit t

abbrev pub at_quota : Meanwhile → Throttler → Throttler
at_quota m t = m.before_quota (at_limit m t)

abbrev pub at_reassigned : Meanwhile → Throttler → Throttler
at_reassigned m t = m.before_reassigned (at_quota m t)

abbrev pub min_ℤ : ℤ → ℤ → ℤ
min_ℤ a b = if ltb_ℤ b a then b else a

-- The settings of base/constant.go: slots in a second, and how often a slot is picked for calibration.
module _ (number_of_slots interval : ℕ) where
  -- The quota that a refill gives.
  unfoldable pub refilled : ℤ → ℤ → ℤ
  refilled limit quota = min_ℤ (quota +ℤ div_pos limit number_of_slots) limit

  -- The first loop of `updateOnce`.
  unfoldable pub update_quota : List Meanwhile → Throttler → Throttler
  update_quota [] t =
      if eqb_ℤ t.throughput_limit zero_ℤ
      then t
      else record t { throughput_quota = refilled t.throughput_limit t.throughput_quota }
  update_quota (m ∷ ms) t =
      let limit = (at_limit m t).throughput_limit in
      let quota = (at_quota m t).throughput_quota in
      let now = m.before_swap (at_quota m t) in
      elim (eqb_ℤ limit zero_ℤ) [
        | true ↦ at_limit m t
        | false ↦ elim (eqb_ℤ now.throughput_quota quota) [
          | true ↦ record now { throughput_quota = refilled limit quota }
          | false ↦ update_quota ms now
        ]
      ]

  -- Tokens of high priority go to low priority, but in the slots picked for calibration.
  unfoldable pub reassign : Throttler → Throttler
  reassign t =
      if not t.need_to_calibrate || not (t.update_count % interval == 0)
      then record t {
        reassigned_high_tokens =
            t.reassigned_high_tokens
            +ℤ min_ℤ t.unused_high_tokens t.max_reassignable_tokens_per_slot;
      }
      else t

  unfoldable pub update_once : List Meanwhile → Throttler → Throttler
  update_once ms t =
      let u = reassign (update_quota ms t) in
      record u {
        unused_high_tokens = div_pos u.high_tokens number_of_slots;
        update_count = (u.update_count + 1) % 2 ^ 64;
      }

  -- A negative number of tokens is refused.
  unfoldable pub set_high_tokens : ℤ → Throttler → Bool × Throttler
  set_high_tokens tokens t =
      if ltb_ℤ tokens zero_ℤ
      then (false, t)
      else if t.once_done
      then (true, record t { high_tokens = tokens })
      else (
        true,
        record t {
          high_tokens = tokens;
          unused_high_tokens = div_pos tokens number_of_slots;
          once_done = true;
        },
      )

  unfoldable pub set_max_reassignable_high_tokens : ℤ → Throttler → Bool × Throttler
  set_max_reassignable_high_tokens tokens t =
      if ltb_ℤ tokens zero_ℤ
      then (false, t)
      else (true, record t { max_reassignable_tokens_per_slot = div_pos tokens number_of_slots })

  -- The loop of `setLowTokens` leaves the smaller of the old quota and a slot's share of the new limit.
  unfoldable pub set_low_tokens : ℤ → Throttler → Bool × Throttler
  set_low_tokens tokens t =
      if ltb_ℤ tokens zero_ℤ
      then (false, t)
      else if eqb_ℤ tokens zero_ℤ
      then (true, record t { throughput_limit = tokens })
      else (
        true,
        record t {
          throughput_limit = tokens;
          throughput_quota = min_ℤ t.throughput_quota (div_pos tokens number_of_slots);
        },
      )

unfoldable pub clear_reassigned_tokens : Throttler → Throttler
clear_reassigned_tokens t = record t { reassigned_high_tokens = zero_ℤ }

-- A setting that may be there.
abbrev if_some :
    {A : Type 0} → (A → Throttler → Bool × Throttler) → Option A → Throttler → Bool × Throttler
if_some set none t = (true, t)
if_some set (some a) t = set a t

abbrev pub set_calibrate : Bool → Throttler → Bool × Throttler
set_calibrate b t = (true, record t { need_to_calibrate = b })

pub record Settings : Type 0 where
  pub high : Option ℤ
  pub max_reassignable_high : Option ℤ
  pub low : Option ℤ
  pub calibrate : Option Bool

-- Which of the settings were accepted; the others are in the map of errors.
pub record Accepted : Type 0 where
  pub high_ok : Bool
  pub max_reassignable_high_ok : Bool
  pub low_ok : Bool

unfoldable pub update_settings : ℕ → ℕ → Settings → Throttler → Accepted × Throttler
update_settings number_of_slots interval s t0 =
    let (high_ok, t1) = if_some (set_high_tokens number_of_slots interval) s.high t0 in
    let (max_ok, t2) =
      if_some (set_max_reassignable_high_tokens number_of_slots interval) s.max_reassignable_high
        t1 in
    let (low_ok, t3) = if_some (set_low_tokens number_of_slots interval) s.low t2 in
    let (calibrate_ok, t4) = if_some set_calibrate s.calibrate t3 in
    (record { high_ok = high_ok; max_reassignable_high_ok = max_ok; low_ok = low_ok }, t4)

-- The loop of `CanSend` for low priority.
unfoldable pub can_send_low : List Meanwhile → Throttler → Bool × Throttler
can_send_low [] t =
    if eqb_ℤ t.throughput_limit zero_ℤ
    then (true, t)
    else if ltb_ℤ zero_ℤ t.throughput_quota
    then (true, record t { throughput_quota = t.throughput_quota -ℤ one_ℤ })
    else if ltb_ℤ zero_ℤ t.reassigned_high_tokens
    then (true, record t { reassigned_high_tokens = t.reassigned_high_tokens -ℤ one_ℤ })
    else (false, t)
can_send_low (m ∷ ms) t =
    let quota = (at_quota m t).throughput_quota in
    let reassigned = (at_reassigned m t).reassigned_high_tokens in
    elim (eqb_ℤ (at_limit m t).throughput_limit zero_ℤ) [
      | true ↦ (true, at_limit m t)
      | false ↦ elim (ltb_ℤ zero_ℤ quota) [
        | true ↦
            let now = m.before_swap (at_quota m t) in
            elim (eqb_ℤ now.throughput_quota quota) [
              | true ↦ (true, record now { throughput_quota = quota -ℤ one_ℤ })
              | false ↦ can_send_low ms now
            ]
        | false ↦ elim (ltb_ℤ zero_ℤ reassigned) [
          | true ↦
              let now = m.before_swap (at_reassigned m t) in
              elim (eqb_ℤ now.reassigned_high_tokens reassigned) [
                | true ↦ (true, record now { reassigned_high_tokens = reassigned -ℤ one_ℤ })
                | false ↦ can_send_low ms now
              ]
          | false ↦ (false, at_reassigned m t)
        ]
      ]
    ]

unfoldable pub can_send : List Meanwhile → Bool → Throttler → Bool × Throttler
can_send ms true t = (true, record t { unused_high_tokens = t.unused_high_tokens -ℤ one_ℤ })
can_send ms false t = can_send_low ms t
