-- ===== src/ConnectionPool/Pools.antt =====
-- GetOrCreatePool: which pool is used, and what becomes of the one it replaces.
use goxdcr.Prelude.{
  ℕ, ◌+◌, ◌%◌, ◌^◌, ◌≡◌, ◌≢◌, refl, ap, ◌∙◌, ◌⊎◌, inl, inr, Bool, true, false, not, ◌&&◌, none,
  some, List, ◌++◌, arith, ◌==◌, ==_iff, if◌then◌else◌, Bool-cases, done, panics, ◌>>=◌,
}
use goxdcr.ConnectionPool.{
  ConnPool, close_pool, new_pool, conn_pool, uses, replaces, get_or_create_pool,
}
use goxdcr.ConnectionPool.Clients.{release_all}

close_pool_lem :
    (pool : ConnPool) (idle : List ℕ)
    → pool.clients ≡ some idle
    → close_pool pool.cas pool
      ≡ done (record pool {
        cas = (pool.cas + 1) % 2 ^ 32;
        clients = none;
        closed = idle ++ pool.closed;
      })
unfolding close_pool
close_pool_lem pool idle h =
    let e : (pool.cas == pool.cas) ≡ true = ground arith in
    ap (λ p. elim p.clients [ none ↦ panics | some i ↦ done (record p { clients = none }) ])
      (release_all pool.cas idle pool h e)

-- With an open pool of the name, GetOrCreatePool does not panic. It uses the pool when it is not stale
-- and has the password. Else it closes the pool and all its idle clients, and the pool used instead is a
-- new one.
pub get_or_create_pool_cases :
    (password size : ℕ) (pool : ConnPool) (idle : List ℕ)
    → pool.clients ≡ some idle
    → ((pool.stale ≡ false)
        × (pool.password ≡ password)
        × (get_or_create_pool password size (some (conn_pool pool)) ≡ done (uses pool)))
      ⊎ (((pool.stale ≡ true) ⊎ (pool.password ≢ password))
          × (old : ConnPool) × (get_or_create_pool password size (some (conn_pool pool))
              ≡ done (replaces old (new_pool password size)))
          × (old.clients ≡ none)
          × (old.closed ≡ idle ++ pool.closed))
unfolding get_or_create_pool
get_or_create_pool_cases password size pool idle h =
    let c = close_pool_lem pool idle h in
    let old : ConnPool = record pool {
      cas = (pool.cas + 1) % 2 ^ 32;
      clients = none;
      closed = idle ++ pool.closed;
    } in
    elim (Bool-cases pool.stale) [
      | inl s ↦ inr (
        inl s,
        old,
        decided false (ap (λ b. not b && pool.password == password) s)
            ∙ ap (λ o. o >>= λ old. done (replaces old (new_pool password size))) c,
        refl,
        refl,
      )
      | inr s ↦ elim (Bool-cases (pool.password == password)) [
        | inl p ↦ inl (
          s,
          (==_iff pool.password password).0 p,
          decided true (ap (λ b. not b && pool.password == password) s ∙ p),
        )
        | inr p ↦ inr (
          inr (λ q. ground arith),
          old,
          decided false (ap (λ b. not b && pool.password == password) s ∙ p)
              ∙ ap (λ o. o >>= λ old. done (replaces old (new_pool password size))) c,
          refl,
          refl,
        )
      ]
    ]
  where
    decided :
        (b : Bool)
        → (not pool.stale && pool.password == password) ≡ b
        → get_or_create_pool password size (some (conn_pool pool)) ≡ (
            if b
            then done (uses pool)
            else (close_pool pool.cas pool >>= λ old. done (replaces old (new_pool password size))))
    decided b e =
        ap
          (λ t.
            if t
            then done (uses pool)
            else (close_pool pool.cas pool >>= λ old. done (replaces old (new_pool password size))))
          e
