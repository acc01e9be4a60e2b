-- ===== src/Bandwidth/Grants.antt =====
-- What one call of Throttle grants, whatever other goroutines do meanwhile.
use goxdcr.Prelude.{ℕ, ◌+◌, ◌≡◌, ◌⊎◌, inl, inr, false, List, All, arith, Bool-cases}
use goxdcr.Prelude.Int64.{
  ℤ, pos_part, neg_part, ◌<ℤ◌, ◌≤ℤ◌, leb_ℤ, eqb_ℤ, div_pos, IsSmall, -ℤ_parts,
}
use goxdcr.CasLoop.{
  Interference, returns, atomically, cas_loop_atomic, LastPass, loaded_by, held_by, EndsWell,
  Preserves,
}
use goxdcr.Bandwidth.{Throttler, Grant, zero_ℤ, throttle_pass, throttle}

abbrev pub IsNonneg : ℤ → Type 0
IsNonneg a = neg_part a ≡ 0

-- The bytes of a request: none negative, none near the ends of an int64.
pub record IsRequest (n m f : ℤ) : Type 0 where
  pub n_nonneg : IsNonneg n
  pub m_nonneg : IsNonneg m
  pub f_nonneg : IsNonneg f
  pub n_small : IsSmall n
  pub m_small : IsSmall m
  pub f_small : IsSmall f

-- What a grant says of the quota before it and after it.
pub record IsGrant (slots : ℕ) (limit n m f quota : ℤ) (g : Grant) (quota' : ℤ) : Type 0 where
  pub one_of_four :
      (g.bytes_can_send ≡ n)
      ⊎ ((g.bytes_can_send ≡ m) ⊎ ((g.bytes_can_send ≡ f) ⊎ (g.bytes_can_send ≡ zero_ℤ)))
  pub all_if_it_fits : zero_ℤ <ℤ quota → n ≤ℤ quota → g.bytes_can_send ≡ n
  pub least_if_it_fits : zero_ℤ <ℤ quota → quota <ℤ n → m ≤ℤ quota → g.bytes_can_send ≡ m
  pub first_if_big :
      zero_ℤ <ℤ quota → quota <ℤ n → quota <ℤ m → div_pos limit slots <ℤ f → g.bytes_can_send ≡ f
  pub sent_nonneg : IsNonneg g.bytes_can_send
  pub spent :
      pos_part quota' + pos_part g.bytes_can_send + neg_part quota
      ≡ pos_part quota + neg_part quota'
  pub from_credit : (zero_ℤ <ℤ quota) ⊎ (g.bytes_can_send ≡ zero_ℤ)
  pub overdraft :
      (IsNonneg quota') ⊎ (((g.bytes_can_send ≡ f) × (div_pos limit slots <ℤ f)) ⊎ (quota' ≡ quota))
  pub allowed : (g.bytes_allowed ≡ zero_ℤ) ⊎ (g.bytes_allowed ≡ quota')

module _ (slots : ℕ) (limit n m f quota : ℤ) (r : IsRequest n m f) (s : IsSmall quota) where
  pub atomically-IsGrant :
      let result = atomically (throttle_pass slots limit n m f quota) quota in
      IsGrant slots limit n m f quota result.0 result.1
  unfolding throttle_pass atomically
  atomically-IsGrant = elim (Bool-cases (leb_ℤ quota zero_ℤ)) [
    | inl dry ↦ rw dry (ground arith)
    | inr wet ↦ elim (Bool-cases (leb_ℤ n quota)) [
      | inl all ↦ rw (wet, all) (ground (arith, -ℤ_parts quota n s r.n_small))
      | inr not_all ↦ elim (Bool-cases (leb_ℤ m quota)) [
        | inl some ↦ rw (wet, not_all, some) (ground (arith, -ℤ_parts quota m s r.m_small))
        | inr not_some ↦ rw (wet, not_all, not_some) (ground (arith, -ℤ_parts quota f s r.f_small))
      ]
    ]
  ]

-- What a call of Throttle leaves, when its last pass has loaded `loaded` and the others leave `held` in
-- the quota: its grant is taken off the quota, which still was what it loaded; or nothing is granted, and
-- the quota is as the others left it.
pub data Granted (slots : ℕ) (limit n m f loaded held : ℤ) (g : Grant) (quota' : ℤ) : Type 0 where
  takes :
      held ≡ loaded
      → IsGrant slots limit n m f loaded g quota'
      → Granted slots limit n m f loaded held g quota'
  takes_none :
      quota' ≡ held
      → g.bytes_can_send ≡ zero_ℤ
      → IsGrant slots limit n m f loaded g loaded
      → Granted slots limit n m f loaded held g quota'

-- A pass that returns grants nothing.
returns-none :
    (slots : ℕ) (limit n m f quota : ℤ) (g : Grant)
    → throttle_pass slots limit n m f quota ≡ returns g
    → g.bytes_can_send ≡ zero_ℤ
unfolding throttle_pass
returns-none slots limit n m f quota g e = ground arith

-- The grant of a loop, from the grant of the pass that ended it.
settle :
    (slots : ℕ) (limit n m f : ℤ) (result : Grant × ℤ) {is : List Interference} (p : LastPass is)
    (cell : ℤ)
    → EndsWell (throttle_pass slots limit n m f) result cell p
    → (let loaded = loaded_by p cell in
        let one = atomically (throttle_pass slots limit n m f loaded) loaded in
        IsGrant slots limit n m f loaded one.0 one.1)
    → Granted slots limit n m f (loaded_by p cell) (held_by p cell) result.0 result.1
unfolding atomically
settle slots limit n m f result p cell (inl (e, same)) g =
    takes_none same (returns-none slots limit n m f _ result.0 e) (rw e at g)
settle slots limit n m f result p cell (inr (e, still)) g = takes still (rw e at g)

-- With throttling on, sizes that are not negative, and sizes, quota and what other goroutines make of the
-- quota away from the ends of an int64: a call ends, and its grant is the one that the quota allows which
-- its last pass has loaded: if that is positive, all the bytes if it covers them, else the least if it
-- covers that, else the first item if that is larger than a slot's share of the limit. Either the grant
-- is taken off the quota, and the quota still was what was loaded, so that no other change of it is lost;
-- or nothing is granted, and the quota is as the others left it.
pub throttle-IsGrant :
    (slots : ℕ) (is : List Interference) (n m f : ℤ) (t : Throttler)
    → IsRequest n m f
    → All (Preserves IsSmall) is
    → IsSmall t.bandwidth_usage_quota
    → eqb_ℤ t.bandwidth_limit zero_ℤ ≡ false
    → let result = throttle slots is n m f t in
      (p : LastPass is) × Granted slots t.bandwidth_limit n m f
        (loaded_by p t.bandwidth_usage_quota)
        (held_by p t.bandwidth_usage_quota)
        result.0
        result.1.bandwidth_usage_quota
unfolding throttle
throttle-IsGrant slots is n m f t r a s on =
    let body = throttle_pass slots t.bandwidth_limit n m f in
    let (p, small, one) = cas_loop_atomic IsSmall body is t.bandwidth_usage_quota a s in
    let g = atomically-IsGrant slots t.bandwidth_limit n m f _ r small in
    rw on (p, settle slots t.bandwidth_limit n m f _ p t.bandwidth_usage_quota one g)
