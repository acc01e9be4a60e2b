-- ===== src/CasLoop.antt =====
-- The compare-and-swap loops of the two throttlers: load a cell, compute, and swap if the cell still
-- holds what was loaded, or else start again.
use goxdcr.Prelude.{◌≡◌, refl, ◌⊎◌, inl, inr, Bool, true, false, List, [], ◌∷◌, ◌++◌, ap, All}
use goxdcr.Prelude.Int64.{ℤ, eqb_ℤ, eqb→eq}

-- What one pass of a loop body does with the value that it loaded.
pub data Attempt {ℓ} (R : Type ℓ) : Type ℓ where
  returns : R → Attempt R
  swaps : ℤ → R → Attempt R

-- What other goroutines do to the cell before the load and between the load and the swap.
pub record Interference : Type 0 where
  pub before_load : ℤ → ℤ
  pub before_swap : ℤ → ℤ

-- What holds of the cell holds after the interference too.
abbrev pub Preserves : (ℤ → Type 0) → Interference → Type 0
Preserves P i = ((x : ℤ) → P x → P (i.before_load x)) × ((x : ℤ) → P x → P (i.before_swap x))

-- No one interferes.
abbrev pub calm : Interference
calm = record { before_load = λ x. x; before_swap = λ x. x }

-- What passes that write nothing leave in the cell.
abbrev pub by_others : List Interference → ℤ → ℤ
by_others [] cell = cell
by_others (i ∷ rest) cell = by_others rest (i.before_swap (i.before_load cell))

-- The pass that ends a loop: what others made of the cell in the passes before it, which wrote
-- nothing, and what they do in it. The pass may be the one past the end of the list.
pub record LastPass (is : List Interference) : Type 0 where
  pub earlier : List Interference
  pub one : Interference
  pub later : List Interference
  pub in_order : is ++ calm ∷ [] ≡ earlier ++ one ∷ later

-- What the last pass loads, and what the cell holds when the pass ends.
abbrev pub loaded_by : {is : List Interference} → LastPass is → ℤ → ℤ
loaded_by p cell = p.one.before_load (by_others p.earlier cell)

abbrev pub held_by : {is : List Interference} → LastPass is → ℤ → ℤ
held_by p cell = p.one.before_swap (loaded_by p cell)

abbrev one_more : (i : Interference) {is : List Interference} → LastPass is → LastPass (i ∷ is)
one_more i p = record {
  earlier = i ∷ p.earlier;
  one = p.one;
  later = p.later;
  in_order = ap (λ l. i ∷ l) p.in_order;
}

module _ {ℓ} {R : Type ℓ} where
  -- With nothing in between.
  unfoldable pub atomically : Attempt R → ℤ → R × ℤ
  atomically (returns r) cell = (r, cell)
  atomically (swaps new r) cell = (r, new)

  -- The loop, with the interference that it meets, pass by pass; past the end of the list it meets none.
  unfoldable pub cas_loop : (ℤ → Attempt R) → List Interference → ℤ → R × ℤ
  cas_loop body [] cell = atomically (body cell) cell
  cas_loop body (i ∷ rest) cell =
      let loaded = i.before_load cell in
      let now = i.before_swap loaded in
      elim (body loaded) [
        | returns r ↦ (r, now)
        | swaps new r ↦ elim (eqb_ℤ now loaded) [ true ↦ (r, new) | false ↦ cas_loop body rest now ]
      ]

  -- How a loop ends: its body returns, and the cell is as the others left it; or it swaps, and the cell
  -- still holds what was loaded.
  abbrev pub EndsWell :
      {is : List Interference} → (ℤ → Attempt R) → R × ℤ → ℤ → LastPass is → Type ℓ
  EndsWell body result cell p =
      ((body (loaded_by p cell) ≡ returns result.0) × (result.1 ≡ held_by p cell))
      ⊎ ((body (loaded_by p cell) ≡ swaps result.1 result.0) × (held_by p cell ≡ loaded_by p cell))

  -- Whatever interferes, the loop ends, and its result and its write are those of one pass of the body.
  -- A write replaces the value that this pass has loaded, so that no one else's change is lost.
  pub cas_loop_atomic :
      (P : ℤ → Type 0) (body : ℤ → Attempt R) (is : List Interference) (cell : ℤ)
      → All (Preserves P) is
      → P cell
      → (p : LastPass is) × P (loaded_by p cell) × EndsWell body (cas_loop body is cell) cell p
  unfolding cas_loop atomically
  cas_loop_atomic P body [] cell a p =
      (record { earlier = []; one = calm; later = []; in_order = refl }, p, last (body cell) refl)
    where
      last :
          (a : Attempt R)
          → body cell ≡ a
          → ((body cell ≡ returns (atomically a cell).0) × ((atomically a cell).1 ≡ cell))
            ⊎ ((body cell ≡ swaps (atomically a cell).1 (atomically a cell).0) × (cell ≡ cell))
      last (returns r) e = inl (e, refl)
      last (swaps new r) e = inr (e, refl)
  cas_loop_atomic P body (i ∷ rest) cell a p =
      pass (body (i.before_load cell)) refl (eqb_ℤ now (i.before_load cell)) refl
        (cas_loop_atomic P body rest now a.1 (a.0.1 _ (a.0.0 _ p)))
    where
      now : ℤ
      now = i.before_swap (i.before_load cell)

      here : LastPass (i ∷ rest)
      here = record { earlier = []; one = i; later = rest ++ calm ∷ []; in_order = refl }

      pass :
          (a' : Attempt R)
          → body (i.before_load cell) ≡ a'
          → (same : Bool) → eqb_ℤ now (i.before_load cell) ≡ same
          → (l : LastPass rest) × P (loaded_by l now) × EndsWell body (cas_loop body rest now) now l
          → (l : LastPass (i ∷ rest)) × P (loaded_by l cell)
            × EndsWell body
                (elim a' [
                  | returns r ↦ (r, now)
                  | swaps new r ↦ elim same [ true ↦ (r, new) | false ↦ cas_loop body rest now ]
                ])
                cell
                l
      pass (returns r) e same s again = (here, a.0.0 _ p, inl (e, refl))
      pass (swaps new r) e true s again = (here, a.0.0 _ p, inr (e, eqb→eq now _ s))
      pass (swaps new r) e false s again = (one_more i again.0, again.1, again.2)
