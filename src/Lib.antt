-- ===== src/Lib.antt =====
-- Verification of goxdcr, the cross data center replication of Couchbase.
--
-- A replication is a pipeline: DCP nozzles stream the mutations of the source's vbuckets, a router
-- filters them, and outgoing nozzles write them to the target. Beside the pipeline run services. This
-- library models the services and helpers with the most state of their own:
--
--   * ThroughSeqno (service_impl/through_seqno_tracker_service.go) follows, for each vbucket, which
--     mutations are done with, so that a checkpoint can be taken. ThroughSeqno/Lists has the lists
--     (SortedSeqnoListWithLock, DualSortedSeqnoListWithLock, isSeqnoGapSeqno), ThroughSeqno/Compute the
--     loop of GetThroughSeqno, ThroughSeqno/Service the state of one vbucket (VbTracker), processGapSeqnos
--     and the other handlers of ProcessEvent, and truncateSeqnoLists as a routine of its own, one list at
--     a time. ThroughSeqno/Dispatch has ProcessEvent over the map of vbuckets and the executors of
--     GetThroughSeqnos. ThroughSeqno/History says which runs are allowed: DCP brings the mutations in
--     the order of their numbers, each mutation is reported once and after it was received, and the
--     filtered and the failed ones are reported in order. The service takes its
--     events from asynchronous listeners, one for each kind of event, which do not by themselves see to
--     it that a report is handled after the receive of its mutation; runs in which it is not are left
--     out (IsAllowed).
--   * Serializer (pipeline_manager/pipelineOpSerializer.go) queues the jobs on each replication. A state
--     has, for each topic, the map's entry, the channels made for it and its go routines; the calls, one
--     step of one routine, and Stop are the events.
--   * Bandwidth (pipeline_svc/bandwidth_throttler.go) and Throughput
--     (service_impl/throughput_throttler_service.go) hold the quotas that the outgoing nozzles ask for.
--     CasLoop is their load, compute, compare-and-swap loop.
--   * Checkpoint (metadata/checkpoint.go) has the records that the checkpoint manager stores, their JSON
--     form (Checkpoint/Decode) and the document that keeps the newest ones.
--   * SimpleUtils (base/simple_utils.go) has the binary search and the sort that the tracker uses
--     (SimpleUtils/Search), and the lists of vbuckets and the spread of load (SimpleUtils/Vbuckets).
--   * DataPool (utils/dataPool.go) hands out byte slices by classes of size.
--   * Requests (base/types.go) has the requests that the parts hand on, and their bytes. Router
--     (parts/router.go) makes them of the mutations of DCP: Router has ComposeMCRequest, Router/Routes
--     route and ProcessExpDelTTL.
--   * Xmem (parts/xmem_nozzle.go, parts/outgoing_nozzle_common.go) is the nozzle that writes to the
--     target's memcached. Xmem/Buffer is requestBuffer with the part of receiveResponse that frees its
--     slots, Xmem/Conflict the conflict resolution, Xmem/GetMeta the end of batchGetMeta, which decodes
--     the target's metadata, and needSend, which reads what it finds, Xmem/Sending writeToClient, which
--     asks the bandwidth throttler, Xmem/Client the connection (xmemClient) that routines share, and
--     Xmem/Resend the resends of a mutation (resendIfTimeout, resendWithReset).
--   * ConnectionPool (base/connection_pool.go) keeps idle connections to memcached.
--   * Backoff (utils/utils.go) has the two executors that retry an operation.
--   * Supervisor (supervisor/generic_supervisor.go) sends heart beats to the parts and services and
--     counts those that are missed.
--   * Part (parts/abstract_part.go) is the state machine that every part of a pipeline has.
--   * Prelude has native lists, Boolean tests, results that may panic, and int64 with its wrap-around.
--   * Tests has runs on concrete inputs.
--
-- Choices. A uint64 is a natural number, and an addition keeps its `% 2 ^ 64`; an int64 is an integer
-- that wraps. A panic, an index out of range and a call on nil are `panics`. The loop of GetThroughSeqno
-- has fuel `rounds`, the distance to the largest number in the lists and two more; it is enough because
-- each round goes on to a larger number, and ThroughSeqno/Largest is about that loop with that fuel. A
-- compare-and-swap loop takes the list of the interferences that it meets and meets none past its end.
-- In the bandwidth throttler the limit does not change during a call; in both throttlers the modulus of
-- the update count is exact where the code goes through float64, and the number of slots is positive.
-- The quotient of BalanceLoad is that of float64 below 2^53 workers and items, where rounding it up is
-- exact, and any number beyond. GetThroughSeqno is one step: it holds the lock of the vbucket's through
-- seqno, and each list is copied under a lock of its own.
--
-- In the request buffer each call is one step, under the lock of its slot; the free positions are a list,
-- the tokens a number, and a notification waits or does not. A call that has to wait on a channel is
-- `blocks`. The success of a response is one step too, where the code locks the slot once to read the
-- request and again to free the slot. In the router and the supervisor a map is a list, for any order;
-- the throttler has let the mutation on, and the filter is any function. The executors' operation is any
-- function with a state of its own, and the number of retries is below the largest int. writeToClient
-- takes the list of the rounds that it runs, with the grants; its sizes are natural numbers, below the
-- ends of an int64. In Xmem/Resend a check takes the times that it reads and what other routines do while
-- its slot is not locked; times are natural numbers, durations are below 2^62, the repair that a check
-- asks for is the one of Xmem/Client, and the resend that follows it is a step of its own. The responses
-- of the target, what its children say to the supervisor and which channel of a select is ready are given
-- to the definitions.
--
-- Not modelled: Attach and the merge of the results of GetThroughSeqnos; condition variables, timers,
-- logs and statistics; the reply channel of a get-or-create job; in the XMEM nozzle the loops over all
-- slots, and the sends of a resend; how connections are made and taken out of a client (getConn); the
-- throttle loop and the settings of the router; the other nozzles, the checkpoint manager, the pipeline
-- supervisor, the settings, the metadata services and all that talks to other processes.
mod Prelude
pub mod SimpleUtils
pub mod ThroughSeqno
pub mod CasLoop
pub mod Bandwidth
pub mod Throughput
pub mod Checkpoint
pub mod Serializer
pub mod DataPool
pub mod Part
pub mod Requests
pub mod Xmem
pub mod Supervisor
pub mod Router
pub mod ConnectionPool
pub mod Backoff
mod Tests
