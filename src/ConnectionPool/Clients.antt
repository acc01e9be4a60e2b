-- ===== src/ConnectionPool/Clients.antt =====
-- No client of an open pool is lost.
use goxdcr.Prelude.{
  ℕ, ◌+◌, ◌%◌, ◌^◌, ◌≤◌, ◌≡◌, refl, ap, ◌∙◌, inl, inr, true, false, Option, none, some, List, [],
  ◌∷◌, ◌++◌, arith, ltb, ◌==◌, if◌then◌else◌, Bool-cases, length, length-append,
}
use goxdcr.ConnectionPool.{
  ConnPool, client, new_client, connection_error, get, release, release_connections,
}

-- What is done with an open pool.
pub data PoolCall : Type 0 where
  gets : Option ℕ → PoolCall
  releases : ℕ → PoolCall
  releases_all : ℕ → PoolCall

abbrev pub pool_after : PoolCall → ConnPool → ConnPool
pool_after (gets new) pool = (get new pool).1
pool_after (releases c) pool = release c pool
pool_after (releases_all cas) pool = release_connections cas pool

abbrev pub count : ℕ → List ℕ → ℕ
count c [] = 0
count c (x ∷ xs) = (if c == x then 1 else 0) + count c xs

-- How many times a call hands a client out of the pool, and how many times it brings it back.
abbrev pub handed : ℕ → PoolCall → ConnPool → ℕ
handed c (gets new) pool = elim (get new pool).0 [ client x ↦ if c == x then 1 else 0 | _ ↦ 0 ]
handed c _ pool = 0

abbrev pub brought : ℕ → PoolCall → ℕ
brought c (releases x) = if c == x then 1 else 0
brought c _ = 0

unfoldable pub pool_run : List PoolCall → ConnPool → ConnPool
pool_run [] pool = pool
pool_run (call ∷ rest) pool = pool_run rest (pool_after call pool)

unfoldable pub all_handed : ℕ → List PoolCall → ConnPool → ℕ
all_handed c [] pool = 0
all_handed c (call ∷ rest) pool = handed c call pool + all_handed c rest (pool_after call pool)

unfoldable pub all_brought : ℕ → List PoolCall → ℕ
all_brought c [] = 0
all_brought c (call ∷ rest) = brought c call + all_brought c rest

count-append : (c : ℕ) (xs ys : List ℕ) → count c (xs ++ ys) ≡ count c xs + count c ys
count-append c [] ys = omega arith
count-append c (x ∷ xs) ys = omega (arith, count-append c xs ys)

-- An open pool with its idle clients, within its room.
abbrev pub HasIdle : ConnPool → List ℕ → Type 0
HasIdle pool idle = (pool.clients ≡ some idle) × (length idle ≤ pool.max_conn)

abbrev pub Balances : ConnPool → List ℕ → ConnPool → List ℕ → (ℕ → ℕ) → (ℕ → ℕ) → Type 0
Balances pool idle next idle_next out back =
    (c : ℕ)
    → count c idle_next + count c next.closed + out c ≡ count c idle + count c pool.closed + back c

on_some {ℓ} :
    {B : Type ℓ} (o : Option (List ℕ)) (idle : List ℕ) (n : B) (s : List ℕ → B)
    → o ≡ some idle
    → (elim o [ none ↦ n | some x ↦ s x ]) ≡ s idle
on_some o idle n s h = rw h refl

get_nothing :
    (new : Option ℕ) (pool : ConnPool)
    → pool.clients ≡ some []
    → get new pool ≡ (elim new [ none ↦ (connection_error, pool) | some c ↦ (new_client c, pool) ])
unfolding get
get_nothing new pool h = on_some pool.clients [] _ _ h

get_idle :
    (new : Option ℕ) (x : ℕ) (idle : List ℕ) (pool : ConnPool)
    → pool.clients ≡ some (x ∷ idle)
    → get new pool ≡ (client x, record pool { clients = some idle })
unfolding get
get_idle new x idle pool h = on_some pool.clients (x ∷ idle) _ _ h

release_room :
    (x : ℕ) (idle : List ℕ) (pool : ConnPool)
    → pool.clients ≡ some idle
    → ltb (length idle) pool.max_conn ≡ true
    → release x pool ≡ record pool { clients = some (idle ++ x ∷ []) }
unfolding release
release_room x idle pool h l =
    on_some pool.clients idle _ _ h
    ∙ ap
        (λ b.
          if b
          then record pool { clients = some (idle ++ x ∷ []) }
          else record pool { closed = x ∷ pool.closed })
        l

release_full :
    (x : ℕ) (idle : List ℕ) (pool : ConnPool)
    → pool.clients ≡ some idle
    → ltb (length idle) pool.max_conn ≡ false
    → release x pool ≡ record pool { closed = x ∷ pool.closed }
unfolding release
release_full x idle pool h l =
    on_some pool.clients idle _ _ h
    ∙ ap
        (λ b.
          if b
          then record pool { clients = some (idle ++ x ∷ []) }
          else record pool { closed = x ∷ pool.closed })
        l

pub release_all :
    (cas : ℕ) (idle : List ℕ) (pool : ConnPool)
    → pool.clients ≡ some idle
    → (pool.cas == cas) ≡ true
    → release_connections cas pool ≡ record pool {
      cas = (pool.cas + 1) % 2 ^ 32;
      clients = some [];
      closed = idle ++ pool.closed;
    }
unfolding release_connections
release_all cas idle pool h e =
    let f : release_connections cas pool ≡ (elim pool.clients [
      | none ↦ record pool { cas = (pool.cas + 1) % 2 ^ 32 }
      | some idle ↦ record pool {
        cas = (pool.cas + 1) % 2 ^ 32;
        clients = some [];
        closed = idle ++ pool.closed;
      }
    ]) =
      simp e refl in
    f ∙ on_some pool.clients idle _ _ h

release_other :
    (cas : ℕ) (pool : ConnPool) → (pool.cas == cas) ≡ false → release_connections cas pool ≡ pool
unfolding release_connections
release_other cas pool e = simp e refl

pool_call-Balances :
    (call : PoolCall) (pool : ConnPool) (idle : List ℕ)
    → HasIdle pool idle
    → (idle_next : List ℕ) × HasIdle (pool_after call pool) idle_next
      × ((pool_after call pool).max_conn ≡ pool.max_conn)
      × Balances pool idle
          (pool_after call pool)
          idle_next
          (λ c. handed c call pool)
          (λ c. brought c call)
pool_call-Balances (gets none) pool [] h =
    rw (pool_after, handed, get_nothing none pool h.0) ([], h, refl, λ c. omega arith)
pool_call-Balances (gets (some n)) pool [] h =
    rw (pool_after, handed, get_nothing (some n) pool h.0) ([], h, refl, λ c. omega arith)
pool_call-Balances (gets new) pool (x ∷ idle) h =
    rw (pool_after, handed, get_idle new x idle pool h.0)
      (idle, (refl, omega (arith, h.1)), refl, λ c. omega arith)
pool_call-Balances (releases x) pool idle h = elim (Bool-cases (ltb (length idle) pool.max_conn)) [
  | inl l ↦
      rw (pool_after, release_room x idle pool h.0 l)
        (
          idle ++ x ∷ [],
          (refl, ground (arith, length-append idle (x ∷ []))),
          refl,
          λ c. omega (arith, count-append c idle (x ∷ [])),
        )
  | inr l ↦ rw (pool_after, release_full x idle pool h.0 l) (idle, h, refl, λ c. omega arith)
]
pool_call-Balances (releases_all cas) pool idle h = elim (Bool-cases (pool.cas == cas)) [
  | inl e ↦
      rw (pool_after, release_all cas idle pool h.0 e)
        ([], (refl, omega arith), refl, λ c. omega (arith, count-append c idle pool.closed))
  | inr e ↦ rw (pool_after, release_other cas pool e) (idle, h, refl, λ c. omega arith)
]

-- Whatever is done with an open pool, it has room for its idle clients, and no client is lost: each is
-- idle, closed or handed out as often as it was idle or closed before or brought back since.
pub pool_run-Balances :
    (calls : List PoolCall) (pool : ConnPool) (idle : List ℕ)
    → HasIdle pool idle
    → (idle_next : List ℕ) × HasIdle (pool_run calls pool) idle_next
      × ((pool_run calls pool).max_conn ≡ pool.max_conn)
      × Balances pool idle
          (pool_run calls pool)
          idle_next
          (λ c. all_handed c calls pool)
          (λ c. all_brought c calls)
unfolding pool_run all_handed all_brought
pool_run-Balances [] pool idle h = (idle, h, refl, λ c. omega arith)
pool_run-Balances (call ∷ rest) pool idle h =
    let (i1, h1, m1, b1) = pool_call-Balances call pool idle h in
    let (i2, h2, m2, b2) = pool_run-Balances rest (pool_after call pool) i1 h1 in
    (i2, h2, m2 ∙ m1, λ c. omega (arith, b1 c, b2 c))
