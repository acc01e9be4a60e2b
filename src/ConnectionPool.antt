-- ===== src/ConnectionPool.antt =====
-- base/connection_pool.go: pools of connections to memcached, and their manager.
pub mod Clients
pub mod Pools
use goxdcr.Prelude.{
  ℕ, zero, suc, ◌+◌, ◌%◌, ◌^◌, Bool, true, false, not, ◌&&◌, Option, none, some, List, [], ◌∷◌,
  ◌++◌, ltb, ◌==◌, if◌then◌else◌, length, Outcome, done, panics, ◌>>=◌,
}

-- A client is known by a number. `clients` is the channel of the idle ones, which has room for
-- `max_conn`; it is none when the pool is closed. `closed` has the clients that were closed.
pub record ConnPool : Type 0 where
  pub clients : Option (List ℕ)
  pub max_conn : ℕ
  pub cas : ℕ
  pub stale : Bool
  pub password : ℕ
  pub closed : List ℕ

pub data GetReply : Type 0 where
  client new_client : ℕ → GetReply
  connection_error pool_is_closed : GetReply

-- `Get`, with what newConnFunc gives if it is called: a client, or none for its error.
unfoldable pub get : Option ℕ → ConnPool → GetReply × ConnPool
get new pool = elim pool.clients [
  | none ↦ (pool_is_closed, pool)
  | some idle ↦ elim idle [
    | [] ↦ elim new [ none ↦ (connection_error, pool) | some c ↦ (new_client c, pool) ]
    | c ∷ rest ↦ (client c, record pool { clients = some rest })
  ]
]

-- `Release`. When the pool is closed nothing becomes of the client.
unfoldable pub release : ℕ → ConnPool → ConnPool
release c pool = elim pool.clients [
  | none ↦ pool
  | some idle ↦
      if ltb (length idle) pool.max_conn
      then record pool { clients = some (idle ++ c ∷ []) }
      else record pool { closed = c ∷ pool.closed }
]

-- `ReleaseConnections`.
unfoldable pub release_connections : ℕ → ConnPool → ConnPool
release_connections cas pool =
    let next = (pool.cas + 1) % 2 ^ 32 in
    if pool.cas == cas
    then elim pool.clients [
      | none ↦ record pool { cas = next }
      | some idle ↦ record pool { cas = next; clients = some []; closed = idle ++ pool.closed }
    ]
    else pool

-- `Close`, with the CAS value that it has read before.
unfoldable pub close_pool : ℕ → ConnPool → Outcome ConnPool
close_pool cas pool =
    let released = release_connections cas pool in
    elim released.clients [ none ↦ panics | some idle ↦ done (record released { clients = none }) ]

abbrev pub default_connection_size : ℕ
default_connection_size = 5

unfoldable pub new_pool : ℕ → ℕ → ConnPool
new_pool password size = record {
  clients = some [];
  max_conn = if size == 0 then default_connection_size else size;
  cas = 0;
  stale = false;
  password = password;
  closed = [];
}

-- A pool of the manager's map: a connPool, or a sslOverMemConnPool.
pub data AnyPool : Type 0 where
  conn_pool ssl_over_mem_conn_pool : ConnPool → AnyPool

pub data PoolReply : Type 0 where
  uses : ConnPool → PoolReply
  replaces : ConnPool → ConnPool → PoolReply
  wrong_conn_type_error : PoolReply

-- `GetOrCreatePool`, with what the map has under the name: the pool that it has then is used, or a new
-- one, which may replace one that is closed.
unfoldable pub get_or_create_pool : ℕ → ℕ → Option AnyPool → Outcome PoolReply
get_or_create_pool password size none = done (uses (new_pool password size))
get_or_create_pool password size (some (ssl_over_mem_conn_pool pool)) = done wrong_conn_type_error
get_or_create_pool password size (some (conn_pool pool)) =
    if not pool.stale && pool.password == password
    then done (uses pool)
    else (close_pool pool.cas pool >>= λ old. done (replaces old (new_pool password size)))
