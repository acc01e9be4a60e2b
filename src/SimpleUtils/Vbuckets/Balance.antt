-- ===== src/SimpleUtils/Vbuckets/Balance.antt =====
-- The spread of work: contiguous ranges from the first to the last item, of two sizes at most.
use goxdcr.Prelude.{
  ℕ, zero, suc, ◌+◌, ◌-◌, ◌*◌, ◌^◌, ◌&&◌, ◌≤◌, ◌<◌, ◌≡◌, refl, sym, subst, ◌⊎◌, inl, inr, true,
  false, List, [], ◌∷◌, done, arith, ltb, ◌==◌, if◌then◌else◌, length, Bool-cases,
}
use native.Mathlib.Nat.{mul-div-le, lt-mul-div-succ}
use goxdcr.SimpleUtils.Vbuckets.{
  Load, balance_loop, quotient_up, max_load_per_worker, workers_with_max_load, balance_load,
}

-- The ranges follow on one another from `first` to `last`, each of size m or m - 1.
abbrev pub AreSpread : ℕ → ℕ → ℕ → List Load → Type 0
AreSpread m first last [] = first ≡ last
AreSpread m first last (l ∷ ls) =
    (l.first ≡ first)
    × ((l.past ≡ first + m) ⊎ (l.past ≡ first + (m - 1)))
    × AreSpread m l.past last ls

balance_loop-AreSpread :
    (rounds i with_max m index : ℕ)
    → (let r = balance_loop rounds i with_max m index in AreSpread m index r.1 r.0)
unfolding balance_loop
balance_loop-AreSpread zero i with_max m index = refl
balance_loop-AreSpread (suc rounds) i with_max m index = elim (Bool-cases (ltb i with_max)) [
  | inl lt ↦ rw lt (refl, inl refl, balance_loop-AreSpread rounds (i + 1) with_max m (index + m))
  | inr ge ↦
      rw ge (refl, inr refl, balance_loop-AreSpread rounds (i + 1) with_max m (index + (m - 1)))
]

length-balance_loop :
    (rounds i with_max m index : ℕ) → length (balance_loop rounds i with_max m index).0 ≡ rounds
unfolding balance_loop
length-balance_loop zero i with_max m index = refl
length-balance_loop (suc rounds) i with_max m index = omega (
  arith,
  length-balance_loop rounds (i + 1) with_max m (index + (if ltb i with_max then m else m - 1)),
)

-- After the workers with the most, each one gets one less.
index_late :
    (rounds i with_max m index : ℕ)
    → with_max ≤ i
    → (balance_loop rounds i with_max m index).1 ≡ index + rounds * (m - 1)
unfolding balance_loop
index_late zero i with_max m index h = omega arith
index_late (suc rounds) i with_max m index h =
    let e : ltb i with_max ≡ false = ground arith in
    rw e (omega (arith, index_late rounds (i + 1) with_max m (index + (m - 1)) (omega arith)))

-- The workers before `with_max` get m each.
index_early :
    (rounds early late i with_max m index : ℕ)
    → rounds ≡ early + late
    → with_max ≡ i + early
    → (balance_loop rounds i with_max m index).1 ≡ index + early * m + late * (m - 1)
unfolding balance_loop
index_early rounds zero late i with_max m index e w =
    let e2 : rounds ≡ late = omega arith in
    rw e2 (omega (arith, index_late late i with_max m index (omega arith)))
index_early zero (suc early) late i with_max m index e w = absurd (omega arith)
index_early (suc rounds) (suc early) late i with_max m index e w =
    let lt : ltb i with_max ≡ true = ground arith in
    rw lt (
      omega (
        arith,
        index_early rounds early late (i + 1) with_max m (index + m) (omega arith) (omega arith),
      ))

-- a workers with p + 1 items and b workers with p items have a more than the product.
two_sizes : (a b w p : ℕ) → a + b ≡ w → a * suc p + b * p ≡ a + p * w
two_sizes a b w p e = rw (sym e) (grind arith)

zero_or_suc : (n : ℕ) → (n ≡ 0) ⊎ ((p : ℕ) × (n ≡ suc p))
zero_or_suc zero = inl refl
zero_or_suc (suc p) = inr (p, refl)

-- Rounding up: the most is 0 with no item, else it is the least that is enough.
rounded_up : (w n p : ℕ) → 0 < w → quotient_up w n ≡ suc p → (p * w < n) × (n ≤ p * w + w)
unfolding quotient_up
rounded_up w n p h e =
    let low : w * suc p ≤ n + w - 1 = subst (λ q. w * q ≤ n + w - 1) e (mul-div-le _ _) in
    let high : n + w - 1 < w * (suc p + 1) =
      subst (λ q. n + w - 1 < w * (q + 1)) e (lt-mul-div-succ _ h) in
    (grind arith, grind arith)

no_load : (w n : ℕ) → 0 < w → quotient_up w n ≡ 0 → n ≡ 0
unfolding quotient_up
no_load w n h e =
    let high : n + w - 1 < w * (0 + 1) =
      subst (λ q. n + w - 1 < w * (q + 1)) e (lt-mul-div-succ _ h) in
    omega arith

-- The last index is the number of items, so that the check after the loop passes.
last_index :
    (w n : ℕ)
    → 0 < w
    → (balance_loop w 0 (workers_with_max_load w n (quotient_up w n)) (quotient_up w n) 0).1 ≡ n
unfolding workers_with_max_load
last_index w n h = elim (zero_or_suc (quotient_up w n)) [
  | inl e ↦
      let n0 = no_load w n h e in
      rw e (rw n0 (omega (arith, index_early w w 0 0 (0 + w) 0 0 (omega arith) (omega arith))))
  | inr (p, e) ↦
      let bounds = rounded_up w n p h e in
      rw e (
        grind (
          arith,
          index_early w (n - p * w) (w - (n - p * w)) 0 (n - p * w) (suc p) 0 (omega arith)
              (omega arith),
          two_sizes (n - p * w) (w - (n - p * w)) w p (omega arith),
        ))
]

-- With a worker at least, and fewer than 2^53 workers and items, the check never panics. The loads of
-- the workers follow on one another and are all the items, the sizes differ by at most one, and there is
-- one load for each worker.
pub balance_load-AreSpread :
    (beyond : ℕ → ℕ → ℕ) (num_of_worker num_of_load : ℕ)
    → 0 < num_of_worker
    → num_of_worker < 2 ^ 53
    → num_of_load < 2 ^ 53
    → (loads : List Load) × (balance_load beyond num_of_worker num_of_load ≡ done loads)
      × (length loads ≡ num_of_worker)
      × AreSpread (quotient_up num_of_worker num_of_load) 0 num_of_load loads
unfolding balance_load max_load_per_worker
balance_load-AreSpread beyond w n h few small =
    let m = quotient_up w n in
    let wm = workers_with_max_load w n m in
    let in_range : (ltb w (2 ^ 53) && ltb n (2 ^ 53)) ≡ true = ground arith in
    (
      (balance_loop w 0 wm m 0).0,
      (let e : ((balance_loop w 0 wm m 0).1 == n) ≡ true = rw (last_index w n h) (ground arith) in
          rw in_range rw e refl),
      length-balance_loop w 0 wm m 0,
      subst (λ last. AreSpread m 0 last (balance_loop w 0 wm m 0).0) (last_index w n h)
          (balance_loop-AreSpread w 0 wm m 0),
    )
