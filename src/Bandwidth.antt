-- ===== src/Bandwidth.antt =====
-- pipeline_svc/bandwidth_throttler.go: the quota of bytes of one replication on this node. Bytes and
-- quotas are int64, and wrap. Each CAS loop has its body here; `Throttle` below is the whole loop.
pub mod Grants
pub mod Rate
pub mod Settings
use goxdcr.Prelude.{
  ℕ, suc, ◌+◌, ◌-◌, ◌%◌, ◌^◌, Bool, true, false, Option, none, some, List, ltb, ◌==◌, if◌then◌else◌,
}
use goxdcr.Prelude.Int64.{
  ℤ, pos, negsuc, ◌+ℤ◌, ◌-ℤ◌, div_pos, mul_pos, ltb_ℤ, leb_ℤ, eqb_ℤ, pos_part, neg_part,
}
use goxdcr.CasLoop.{Attempt, returns, swaps, Interference, cas_loop, atomically}

pub record Throttler : Type 0 where
  pub number_of_source_nodes : ℕ  -- uint32
  pub overall_bandwidth_limit : ℤ
  pub bandwidth_limit : ℤ
  pub bandwidth_usage_quota : ℤ

-- `topology_error` is an error of the topology service, passed on.
pub data Error : Type 0 where
  error_zero_src_node topology_error : Error

-- The bytes that the caller may send, and those that it may ask for next.
pub record Grant : Type 0 where
  pub bytes_can_send : ℤ
  pub bytes_allowed : ℤ

abbrev pub grant : ℤ → ℤ → Grant
grant sent allowed = record { bytes_can_send = sent; bytes_allowed = allowed }

abbrev pub zero_ℤ : ℤ
zero_ℤ = pos 0

module _ (number_of_slots : ℕ) where
  -- The loop body of `Throttle`.
  unfoldable pub throttle_pass : ℤ → ℤ → ℤ → ℤ → ℤ → Attempt Grant
  throttle_pass limit number_of_bytes min_number_of_bytes number_of_bytes_of_first_item quota =
      if leb_ℤ quota zero_ℤ
      then returns (grant zero_ℤ zero_ℤ)
      else if leb_ℤ number_of_bytes quota
      then swaps (quota -ℤ number_of_bytes) (grant number_of_bytes zero_ℤ)
      else if leb_ℤ min_number_of_bytes quota
      then swaps (quota -ℤ min_number_of_bytes)
          (grant min_number_of_bytes (quota -ℤ min_number_of_bytes))
      else if ltb_ℤ (div_pos limit number_of_slots) number_of_bytes_of_first_item
      then swaps (quota -ℤ number_of_bytes_of_first_item) (
          grant number_of_bytes_of_first_item (
            if ltb_ℤ zero_ℤ (quota -ℤ number_of_bytes_of_first_item)
            then quota -ℤ number_of_bytes_of_first_item
            else zero_ℤ))
      else returns (grant zero_ℤ quota)

  -- The loop body of `updateOnce`; the result is the new quota, which decides on the broadcast.
  unfoldable pub update_pass : ℤ → ℤ → Attempt ℤ
  update_pass limit quota =
      let new_quota = quota +ℤ div_pos limit number_of_slots in
      if ltb_ℤ limit new_quota then swaps limit limit else swaps new_quota new_quota

  unfoldable pub init_bandwidth_usage_quota : ℤ → Throttler → Throttler
  init_bandwidth_usage_quota limit t = record t {
    bandwidth_usage_quota = div_pos limit number_of_slots;
  }

  -- `Throttle`, with what other goroutines do to the quota meanwhile.
  unfoldable pub throttle : List Interference → ℤ → ℤ → ℤ → Throttler → Grant × Throttler
  throttle is number_of_bytes min_number_of_bytes number_of_bytes_of_first_item t =
      let limit = t.bandwidth_limit in
      let result =
        cas_loop
          (throttle_pass limit number_of_bytes min_number_of_bytes number_of_bytes_of_first_item) is
          t.bandwidth_usage_quota in
      if eqb_ℤ limit zero_ℤ
      then (grant number_of_bytes zero_ℤ, t)
      else (result.0, record t { bandwidth_usage_quota = result.1 })

  -- `updateOnce`: the new state, and whether the waiting routines are woken up.
  unfoldable pub update_once : List Interference → Throttler → Bool × Throttler
  update_once is t =
      let result = cas_loop (update_pass t.bandwidth_limit) is t.bandwidth_usage_quota in
      (ltb_ℤ zero_ℤ result.0, record t { bandwidth_usage_quota = result.1 })

-- The loop body of `adjustBandwidthUsageQuota`.
unfoldable pub adjust_pass : ℤ → ℤ → Attempt (Unit {0})
adjust_pass limit quota = if leb_ℤ quota limit then returns tt else swaps limit tt

unfoldable pub adjust_bandwidth_usage_quota : List Interference → ℤ → Throttler → Throttler
adjust_bandwidth_usage_quota is limit t = record t {
  bandwidth_usage_quota = (cas_loop (adjust_pass limit) is t.bandwidth_usage_quota).1;
}

-- The new state, and the limit or the error.
unfoldable pub set_bandwidth_limit : Throttler → Throttler × Option ℤ
set_bandwidth_limit t =
    let limit =
      div_pos (mul_pos (mul_pos t.overall_bandwidth_limit 1024) 1024) t.number_of_source_nodes in
    if t.number_of_source_nodes == 0
    then (t, none)
    else (record t { bandwidth_limit = limit }, some limit)

-- `uint32(n)` of an int.
abbrev pub to_uint32 : ℤ → ℕ
to_uint32 (pos n) = n % 2 ^ 32
to_uint32 (negsuc n) = (2 ^ 64 - 1 - n % 2 ^ 64) % 2 ^ 32

-- `Attach`: `nodes` is the answer of the topology service, `none` for its error, and `overall` the
-- setting of the replication.
unfoldable pub attach : ℕ → Option ℤ → ℤ → Throttler → Throttler × Option Error
attach number_of_slots none overall t = (t, some topology_error)
attach number_of_slots (some nodes) overall t =
    if eqb_ℤ nodes zero_ℤ
    then (t, some error_zero_src_node)
    else (let u = record t {
      number_of_source_nodes = to_uint32 nodes;
      overall_bandwidth_limit = overall;
    } in
        let (v, limit) = set_bandwidth_limit u in
        elim limit [
          | none ↦ (v, some error_zero_src_node)
          | some l ↦ (init_bandwidth_usage_quota number_of_slots l v, none)
        ])

unfoldable pub adjust_if_set : List Interference → Throttler × Option ℤ → Throttler × Option Error
adjust_if_set is (t, none) = (t, some error_zero_src_node)
adjust_if_set is (t, some limit) = (adjust_bandwidth_usage_quota is limit t, none)

-- The end of `UpdateSettings`, after the settings that are there have been stored.
unfoldable pub recompute : List Interference → Throttler → Throttler × Option Error
recompute is t = adjust_if_set is (set_bandwidth_limit t)

unfoldable pub store_overall : Option ℤ → Throttler → Throttler
store_overall none t = t
store_overall (some l) t = record t { overall_bandwidth_limit = l }

-- `UpdateSettings`, for the settings that the map holds. A number of nodes that is zero as a uint32 ends
-- it at once, after the overall limit has been stored.
unfoldable pub update_settings :
    List Interference → Option ℤ → Option ℤ → Throttler → Throttler × Option Error
update_settings is none none t = (t, none)
update_settings is (some l) none t = recompute is (store_overall (some l) t)
update_settings is overall (some n) t =
    if ltb 0 (to_uint32 n)
    then recompute is (record (store_overall overall t) { number_of_source_nodes = to_uint32 n })
    else (store_overall overall t, some error_zero_src_node)
