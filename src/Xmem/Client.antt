-- ===== src/Xmem/Client.antt =====
-- parts/xmem_nozzle.go, xmemClient: a connection to the target with its health, shared by the routines
-- that write to it and read from it. Each call is one step, under the client's lock.
pub mod Repairs
use goxdcr.Prelude.{
  ℕ, suc, ◌+◌, ◌-◌, Bool, true, false, ◌&&◌, ◌||◌, Option, none, some, List, [], ◌∷◌, ◌++◌, ltb,
  ◌==◌, if◌then◌else◌,
}

-- A connection is known by a number, and times are numbers; none is the zero time. `closed` has the
-- connections that were closed, in their order.
pub record XmemClient : Type 0 where
  pub mem_client : ℕ
  pub continuous_write_failure_counter : ℕ
  pub success_counter : ℕ
  pub max_continuous_write_failure : ℕ
  pub max_downtime : ℕ
  pub downtime_start : Option ℕ
  pub healthy : Bool
  pub num_of_repairs : ℕ
  pub last_failure : Option ℕ
  pub backoff_factor : ℕ
  pub closed : List ℕ

unfoldable pub new_xmem_client : ℕ → ℕ → ℕ → XmemClient
new_xmem_client mem_client max_continuous_failure max_downtime = record {
  mem_client = mem_client;
  continuous_write_failure_counter = 0;
  success_counter = 0;
  max_continuous_write_failure = max_continuous_failure;
  max_downtime = max_downtime;
  downtime_start = none;
  healthy = true;
  num_of_repairs = 0;
  last_failure = none;
  backoff_factor = 0;
  closed = [];
}

abbrev start_of : Option ℕ → ℕ → ℕ
start_of none now = now
start_of (some start) now = start

-- `reportOpFailure`, at a time.
unfoldable pub report_op_failure : Bool → ℕ → XmemClient → XmemClient
report_op_failure read_op now client =
    let start = start_of client.downtime_start now in
    let failures =
      if read_op
      then client.continuous_write_failure_counter
      else suc client.continuous_write_failure_counter in
    record client {
      success_counter = 0;
      downtime_start = some start;
      continuous_write_failure_counter = failures;
      healthy =
          if ltb client.max_continuous_write_failure failures
            || ltb client.max_downtime (now - start)
          then false
          else client.healthy;
    }

-- `reportOpSuccess`.
unfoldable pub report_op_success : XmemClient → XmemClient
report_op_success client =
    let successes = suc client.success_counter in
    let backs_off =
      ltb client.max_continuous_write_failure successes && ltb 0 client.backoff_factor in
    record client {
      downtime_start = none;
      continuous_write_failure_counter = 0;
      backoff_factor = if backs_off then client.backoff_factor - 1 else client.backoff_factor;
      success_counter =
          if backs_off then successes - client.max_continuous_write_failure else successes;
      healthy = true;
    }

abbrev next_backoff : Option ℕ → ℕ → ℕ → ℕ
next_backoff none now factor = 0
next_backoff (some failure) now factor = if ltb (now - failure) 60000 then suc factor else 0

-- `repairConn`, with the new connection, the repair count at the error and the time in milliseconds: the
-- client, and whether it was repaired.
unfoldable pub repair_conn : ℕ → ℕ → ℕ → XmemClient → XmemClient × Bool
repair_conn mem_client repair_count_at_error now client =
    if client.num_of_repairs == repair_count_at_error
    then (
      record client {
        backoff_factor = next_backoff client.last_failure now client.backoff_factor;
        closed = client.closed ++ client.mem_client ∷ [];
        mem_client = mem_client;
        continuous_write_failure_counter = 0;
        num_of_repairs = suc client.num_of_repairs;
        healthy = true;
      },
      true,
    )
    else (client, false)

unfoldable pub mark_conn_unhealthy : XmemClient → XmemClient
mark_conn_unhealthy client = record client { healthy = false }

unfoldable pub increment_back_off_factor : XmemClient → XmemClient
increment_back_off_factor client = record client { backoff_factor = suc client.backoff_factor }

-- The calls of the routines that share the client.
pub data ClientCall : Type 0 where
  fails : Bool → ℕ → ClientCall
  succeeds marks_unhealthy increments_back_off : ClientCall
  repairs : ℕ → ℕ → ℕ → ClientCall

abbrev pub client_step : ClientCall → XmemClient → XmemClient × Bool
client_step (fails read_op now) client = (report_op_failure read_op now client, false)
client_step succeeds client = (report_op_success client, false)
client_step marks_unhealthy client = (mark_conn_unhealthy client, false)
client_step increments_back_off client = (increment_back_off_factor client, false)
client_step (repairs mem_client rev now) client = repair_conn mem_client rev now client

-- The calls one after the other: the client, and the requests for a repair that were granted, each with
-- its connection and the repair count that it named.
unfoldable pub client_run : List ClientCall → XmemClient → XmemClient × List (ℕ × ℕ)
client_run [] client = (client, [])
client_run (call ∷ rest) client =
    let first = client_step call client in
    let later = client_run rest first.0 in
    (
      later.0,
      if first.1
          then elim call [ repairs mem rev now ↦ (mem, rev) ∷ later.1 | _ ↦ later.1 ]
          else later.1,
    )
