-- ===== src/Tests/Services.antt =====
-- The events of two vbuckets, and the life of a part.
use goxdcr.Prelude.{◌+◌, ◌≤◌, ◌≡◌, ◌≢◌, refl, false, some, List, [], ◌∷◌}
use goxdcr.ThroughSeqno.Service.{initialize}
use goxdcr.ThroughSeqno.Dispatch.{
  ThroughSeqnoTrackerSvc, Event, data_sent, data_received, data_unable_to_filter, process_events,
}
use goxdcr.ThroughSeqno.Dispatch.Routes.{Does, all_events, process_events-Does}
use goxdcr.Part.{part_initial, part_starting, part_running, part_stopping, rank, new_abstract_part}
use goxdcr.Part.Life.{Request, to_state, to_connector, total_changes, final, part_moves_on}

abbrev all_vbs : ThroughSeqnoTrackerSvc
all_vbs = record { vb_map = λ vb. some initialize }

abbrev some_events_of_two : List Event
some_events_of_two =
    data_received (record { v_bucket = 3; seqno = 8 })
    ∷ data_received (record { v_bucket = 4; seqno = 2 })
    ∷ data_sent 3 8
    ∷ data_unable_to_filter false (some (record { v_bucket = 4; seqno = 2 }))
    ∷ []

process_events-Does_example :
    Does all_vbs
      (λ vb. all_events vb some_events_of_two)
      (process_events some_events_of_two all_vbs)
process_events-Does_example =
    process_events-Does some_events_of_two all_vbs
      ((initialize, refl), ((initialize, refl), ((initialize, refl), ((initialize, refl), tt))))

abbrev some_requests : List Request
some_requests =
    to_connector 5
    ∷ to_state part_starting
    ∷ to_state part_starting
    ∷ to_state part_running
    ∷ to_state part_stopping
    ∷ []

part_moves_on_example :
    ((total_changes some_requests new_abstract_part).0 + rank new_abstract_part.state
      ≤ rank (final some_requests new_abstract_part).state)
    × (rank (final some_requests new_abstract_part).state ≤ 5)
    × ((total_changes some_requests new_abstract_part).1 ≤ 1)
    × (new_abstract_part.state ≢ part_initial
        → (total_changes some_requests new_abstract_part).1 ≡ 0)
part_moves_on_example = part_moves_on some_requests new_abstract_part
