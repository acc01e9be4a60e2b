-- ===== src/ThroughSeqno/Dispatch.antt =====
-- service_impl/through_seqno_tracker_service.go: ProcessEvent and GetThroughSeqnos over the maps of
-- vbuckets.
pub mod Workers
pub mod Routes
use goxdcr.Prelude.{
  ℕ, zero, suc, ◌+◌, ◌-◌, Bool, true, false, Option, none, some, List, [], ◌∷◌, ◌++◌, Outcome, done,
  panics, out_of_fuel, ◌>>=◌, or_panic, ltb, leb, ◌==◌, if◌then◌else◌, length, take, drop,
}
use goxdcr.ThroughSeqno.Service.{
  VbTracker, VbEvent, sends, filters, fails_cr, receives, gets_through, initialize, set_start_seqno,
  vb_step, vb_run,
}

-- The maps of the service, keyed by vbucket: all have the same keys.
pub record ThroughSeqnoTrackerSvc : Type 0 where
  pub vb_map : ℕ → Option VbTracker

pub record UprEvent : Type 0 where
  pub v_bucket : ℕ
  pub seqno : ℕ

-- The event types, with the data that the handlers read. A nil mutation is `none`, and
-- `data_unable_to_filter` says whether its error is recoverable.
pub data Event : Type 0 where
  data_sent : ℕ → ℕ → Event
  data_filtered : Option UprEvent → Event
  data_unable_to_filter : Bool → Option UprEvent → Event
  data_failed_cr_source : ℕ → ℕ → Event
  data_received : UprEvent → Event
  other_event : Event

unfoldable pub set_vb : ℕ → VbTracker → ThroughSeqnoTrackerSvc → ThroughSeqnoTrackerSvc
set_vb vbno t s = record { vb_map = λ k. if k == vbno then some t else s.vb_map k }

-- A step on one vbucket; a vbucket that is not in the maps has nil lists, whose locks panic.
unfoldable pub on_vb : ℕ → VbEvent → ThroughSeqnoTrackerSvc → Outcome ThroughSeqnoTrackerSvc
on_vb vbno event s =
    or_panic (s.vb_map vbno) >>= λ t. vb_step event t >>= λ next. done (set_vb vbno next s)

unfoldable pub mark_upr_event_as_filtered :
    Option UprEvent → ThroughSeqnoTrackerSvc → Outcome ThroughSeqnoTrackerSvc
mark_upr_event_as_filtered none s = done s
mark_upr_event_as_filtered (some upr_event) s = on_vb upr_event.v_bucket (filters upr_event.seqno) s

-- `ProcessEvent`; whether the pipeline still runs is only logged.
unfoldable pub process_event : Event → ThroughSeqnoTrackerSvc → Outcome ThroughSeqnoTrackerSvc
process_event (data_sent vbno seqno) s = on_vb vbno (sends seqno) s
process_event (data_filtered upr_event) s = mark_upr_event_as_filtered upr_event s
process_event (data_unable_to_filter recoverable upr_event) s =
    if recoverable then done s else mark_upr_event_as_filtered upr_event s
process_event (data_failed_cr_source vbno seqno) s = on_vb vbno (fails_cr seqno) s
process_event (data_received upr_event) s = on_vb upr_event.v_bucket (receives upr_event.seqno) s
process_event other_event s = done s

unfoldable pub process_events : List Event → ThroughSeqnoTrackerSvc → Outcome ThroughSeqnoTrackerSvc
process_events [] s = done s
process_events (e ∷ es) s = process_event e s >>= process_events es

-- The loop of `GetThroughSeqnos` that hands the vbuckets out, `vb_per_worker` to each executor; it makes
-- a round before it looks whether any are left.
unfoldable pub hand_out : ℕ → ℕ → ℕ → List ℕ → Outcome (List (List ℕ))
hand_out zero vb_per_worker start_index vbs = out_of_fuel
hand_out (suc fuel) vb_per_worker start_index vbs =
    let end_index =
      if ltb (length vbs) (start_index + vb_per_worker)
      then length vbs
      else start_index + vb_per_worker in
    let rest = hand_out fuel vb_per_worker end_index vbs in
    let own = take (end_index - start_index) (drop start_index vbs) in
    if leb (length vbs) end_index then done (own ∷ []) else rest >>= λ others. done (own ∷ others)

abbrev pub vb_per_worker : ℕ
vb_per_worker = 20

-- The vbuckets of each executor of `GetThroughSeqnos`.
unfoldable pub executors : List ℕ → Outcome (List (List ℕ))
executors list_of_vbs = hand_out (suc (length list_of_vbs)) vb_per_worker 0 list_of_vbs
