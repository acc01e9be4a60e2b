-- ===== src/Tests/Queues.antt =====
-- pipeline_manager/pipelineOpSerializer.go and base/simple_utils.go on small inputs.
use goxdcr.Prelude.{refl, ℕ, ◌≡◌, inl, inr, false, none, some, List, [], ◌∷◌, done, arith, length}
use goxdcr.SimpleUtils.Search.{search_uint64_list}
use goxdcr.SimpleUtils.Search.Bounds.{lower_bound, hits, search_uint64_list-eq}
use goxdcr.SimpleUtils.Vbuckets.{Load, balance_load, quotient_up}
use goxdcr.SimpleUtils.Vbuckets.Balance.{AreSpread, balance_load-AreSpread}
use goxdcr.Serializer.{serializer_step, submit, set_lane}
use goxdcr.Serializer.{
  pipeline_update, pipeline_deletion, request, Event, call, run, new_pipeline_op_serializer,
  serializer_run,
}
use goxdcr.Serializer.Drain.{IsDrained, drive, queue_drains}
use goxdcr.Serializer.Order.{IsOrdered, jobs_in_order}

-- Two jobs on topic 1, one on topic 2, and the first steps of the routine of topic 1.
abbrev some_events : List Event
unfolding request
some_events =
    call false (request 1 pipeline_update (some 9))
    ∷ call false (request 1 pipeline_deletion none)
    ∷ call false (request 2 pipeline_update none)
    ∷ run 1 0 false
    ∷ run 1 0 false
    ∷ run 1 0 false
    ∷ []

jobs_in_order_example :
    (let last = serializer_run 1000 some_events new_pipeline_op_serializer in
      IsOrdered last.stopped 1 (last.lanes 1))
jobs_in_order_example = jobs_in_order 1000 some_events 1

search_uint64_list-eq_example :
    search_uint64_list (3 ∷ 5 ∷ 9 ∷ 7 ∷ []) 5
    ≡ (lower_bound 5 (3 ∷ 5 ∷ 9 ∷ 7 ∷ []), hits 5 (3 ∷ 5 ∷ 9 ∷ 7 ∷ []))
search_uint64_list-eq_example =
    search_uint64_list-eq (3 ∷ 5 ∷ 9 ∷ 7 ∷ []) 5
      (inl (omega arith, inr (omega arith, (omega arith, (omega arith, tt)))))

balance_load-AreSpread_example :
    (loads : List Load) × (balance_load (λ w n. 0) 3 7 ≡ done loads)
    × (length loads ≡ 3)
    × AreSpread (quotient_up 3 7) 0 7 loads
balance_load-AreSpread_example =
    balance_load-AreSpread (λ w n. 0) 3 7 (omega arith) (omega arith) (omega arith)

still_running : (serializer_run 1000 some_events new_pipeline_op_serializer).stopped ≡ false
unfolding some_events serializer_run serializer_step submit set_lane request
    new_pipeline_op_serializer
still_running = refl

queue_drains_example :
    (let lane = (serializer_run 1000 some_events new_pipeline_op_serializer).lanes 1 in
      (n : ℕ) × IsDrained lane.accepted (drive (λ n. false) 1 n lane))
queue_drains_example = queue_drains 1000 some_events 1 (λ n. false) still_running
