-- ===== src/Tests/Connections.antt =====
-- A batch of three items that is sent in pieces, and a pool of two connections.
use goxdcr.Prelude.{
  ℕ, ◌≡◌, ◌≢◌, ◌⊎◌, refl, true, false, some, none, List, [], ◌∷◌, ◌++◌, done, replicate, arith,
}
use goxdcr.Prelude.Int64.{pos}
use goxdcr.Bandwidth.{Throttler}
use goxdcr.Xmem.Sending.{Item, Round, granted, write_to_client}
use goxdcr.Xmem.Sending.Order.{unwritten, write_to_client_keeps}
use goxdcr.Xmem.Client.{new_xmem_client, ClientCall, fails, succeeds, repairs, client_run}
use goxdcr.Xmem.Client.Repairs.{IsRepaired, client_run-IsRepaired}
use goxdcr.ConnectionPool.{ConnPool, new_pool, conn_pool, uses, replaces, get_or_create_pool}
use goxdcr.ConnectionPool.Clients.{
  PoolCall, gets, releases, releases_all, pool_run, all_handed, all_brought, HasIdle, Balances,
  pool_run-Balances,
}
use goxdcr.ConnectionPool.Pools.{get_or_create_pool_cases}

abbrev three_items : List Item
three_items = replicate 4 1 ∷ replicate 5 2 ∷ replicate 6 3 ∷ []

abbrev some_rounds : List Round
some_rounds = granted 4 5 true ∷ granted 5 0 true ∷ granted 0 0 true ∷ granted 6 0 true ∷ []

write_to_client_keeps_example :
    (write_to_client 30 some_rounds three_items).0
      ++ unwritten (write_to_client 30 some_rounds three_items).1
    ≡ three_items
write_to_client_keeps_example = write_to_client_keeps 30 some_rounds three_items

abbrev a_throttler : Throttler
a_throttler = record {
  number_of_source_nodes = 2;
  overall_bandwidth_limit = pos 4;
  bandwidth_limit = pos 100;
  bandwidth_usage_quota = pos 9;
}

abbrev some_pool_calls : List PoolCall
some_pool_calls =
    gets (some 1)
    ∷ gets (some 2)
    ∷ releases 1
    ∷ releases 2
    ∷ releases 3
    ∷ gets none
    ∷ releases_all 0
    ∷ []

empty_pool : HasIdle (new_pool 7 2) []
unfolding new_pool
empty_pool = (refl, omega arith)

pool_run-Balances_example :
    (idle_next : List ℕ) × HasIdle (pool_run some_pool_calls (new_pool 7 2)) idle_next
    × ((pool_run some_pool_calls (new_pool 7 2)).max_conn ≡ (new_pool 7 2).max_conn)
    × Balances
        (new_pool 7 2)
        []
        (pool_run some_pool_calls (new_pool 7 2))
        idle_next
        (λ c. all_handed c some_pool_calls (new_pool 7 2))
        (λ c. all_brought c some_pool_calls)
pool_run-Balances_example = pool_run-Balances some_pool_calls (new_pool 7 2) [] empty_pool

abbrev a_pool : ConnPool
a_pool = record {
  clients = some (4 ∷ []);
  max_conn = 2;
  cas = 0;
  stale = false;
  password = 7;
  closed = [];
}

get_or_create_pool_cases_example :
    ((a_pool.stale ≡ false)
      × (a_pool.password ≡ 8)
      × (get_or_create_pool 8 2 (some (conn_pool a_pool)) ≡ done (uses a_pool)))
    ⊎ (((a_pool.stale ≡ true) ⊎ (a_pool.password ≢ 8))
        × (old : ConnPool) × (get_or_create_pool 8 2 (some (conn_pool a_pool))
            ≡ done (replaces old (new_pool 8 2)))
        × (old.clients ≡ none)
        × (old.closed ≡ (4 ∷ []) ++ a_pool.closed))
get_or_create_pool_cases_example = get_or_create_pool_cases 8 2 a_pool (4 ∷ []) refl

abbrev some_client_calls : List ClientCall
some_client_calls =
    fails false 5 ∷ repairs 11 0 6 ∷ fails true 7 ∷ repairs 12 0 8 ∷ succeeds ∷ repairs 13 1 9 ∷ []

client_run-IsRepaired_example :
    IsRepaired
      (new_xmem_client 10 3 100)
      (client_run some_client_calls (new_xmem_client 10 3 100)).0
      (client_run some_client_calls (new_xmem_client 10 3 100)).1
client_run-IsRepaired_example = client_run-IsRepaired some_client_calls (new_xmem_client 10 3 100)
