-- ===== src/ThroughSeqno.antt =====
-- service_impl/through_seqno_tracker_service.go: which sequence numbers of a vbucket are done with.
-- `Lists` has the sequence number lists, `Compute` the computation of the through seqno, `Service` the
-- state of a vbucket and the events; the other modules prove what these do.
pub mod Lists
pub mod Compute
pub mod Service
pub mod Dispatch
pub mod Gaps
pub mod Rounds
pub mod Largest
pub mod Truncate
pub mod TruncateGaps
pub mod History
pub mod Reports
pub mod Receives
pub mod Advance
pub mod Truncations
pub mod Safety
