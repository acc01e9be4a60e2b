-- ===== src/ThroughSeqno/TruncateGaps.antt =====
-- Truncation of the two lists of gap ranges.
use goxdcr.Prelude.{
  ℕ, zero, suc, ◌≤◌, ◌<◌, ◌≡◌, refl, ap, inl, inr, false, List, [], ◌∷◌, done, arith, ltb,
  if◌then◌else◌, drop, In, Bool-cases,
}
use goxdcr.SimpleUtils.Search.Bounds.{
  lower_bound, hits, search_uint64_list-eq, Ascends-IsSplit, hits-In,
}
use goxdcr.ThroughSeqno.Lists.{DualSeqnoList, truncate_gap_seqno_list, truncate_dual_seqnos}
use goxdcr.ThroughSeqno.Gaps.{GapsAbove, InGap, GapsAbove-starts}
use goxdcr.Prelude.{Ascends}

GapsAbove-ends : (b : ℕ) (ss es : List ℕ) → GapsAbove b ss es → Ascends b es
GapsAbove-ends b [] [] g = tt
GapsAbove-ends b [] (e ∷ es) g = elim g [ ]
GapsAbove-ends b (s ∷ ss) [] g = elim g [ ]
GapsAbove-ends b (s ∷ ss) (e ∷ es) g = (omega arith, GapsAbove-ends e ss es g.2)

start-InGap : (p b : ℕ) (ss es : List ℕ) → GapsAbove b ss es → In p ss → InGap p ss es
start-InGap p b [] es g h = elim h [ ]
start-InGap p b (s ∷ ss) [] g h = elim g [ ]
start-InGap p b (s ∷ ss) (e ∷ es) g (inl h) = inl (omega arith, omega arith)
start-InGap p b (s ∷ ss) (e ∷ es) g (inr h) = inr (start-InGap p e ss es g.2 h)

end-InGap : (p b : ℕ) (ss es : List ℕ) → GapsAbove b ss es → In p es → InGap p ss es
end-InGap p b [] [] g h = elim h [ ]
end-InGap p b [] (e ∷ es) g h = elim g [ ]
end-InGap p b (s ∷ ss) [] g h = elim h [ ]
end-InGap p b (s ∷ ss) (e ∷ es) g (inl h) = inl (omega arith, omega arith)
end-InGap p b (s ∷ ss) (e ∷ es) g (inr h) = inr (end-InGap p e ss es g.2 h)

same_bound :
    (p b : ℕ) (ss es : List ℕ)
    → GapsAbove b ss es
    → ¬ InGap p ss es
    → lower_bound p ss ≡ lower_bound p es
unfolding lower_bound
same_bound p b [] [] g n = refl
same_bound p b [] (e ∷ es) g n = elim g [ ]
same_bound p b (s ∷ ss) [] g n = elim g [ ]
same_bound p b (s ∷ ss) (e ∷ es) g n = elim (Bool-cases (ltb s p)) [
  | inr before ↦ let q : ltb e p ≡ false = ground arith in rw (before, q)
  | inl in_front ↦ elim (Bool-cases (ltb e p)) [
    | inl q ↦ rw (in_front, q) (ap suc (same_bound p e ss es g.2 (λ h. n (inr h))))
    | inr q ↦ absurd (n (inl (ground arith, ground arith)))
  ]
]

-- The ranges that start below `p`, when `p` is in none, go.
pub kept_ranges : ℕ → DualSeqnoList → DualSeqnoList
kept_ranges p g = record {
  seqno_list_1 = drop (lower_bound p g.seqno_list_1) g.seqno_list_1;
  seqno_list_2 = drop (lower_bound p g.seqno_list_1) g.seqno_list_2;
}

truncate_gap-drop :
    (p b : ℕ) (xs : List ℕ)
    → Ascends b xs
    → ¬ In p xs
    → truncate_gap_seqno_list p xs ≡ done (drop (lower_bound p xs) xs)
unfolding truncate_gap_seqno_list
truncate_gap-drop p b xs a n =
    rw (search_uint64_list-eq xs p (Ascends-IsSplit p b xs a)) (elim (Bool-cases (hits p xs)) [
      | inl h ↦ absurd (n (hits-In p xs h))
      | inr m ↦ rw m (ap done (whole (lower_bound p xs)))
    ])
  where
    whole : (i : ℕ) → (if ltb 0 i then drop i xs else xs) ≡ drop i xs
    whole zero = refl
    whole (suc i) = ground arith

-- On ranges in order, the truncation at a number in no range never panics, and drops the same number
-- of entries from both lists.
pub truncate_dual_seqnos-eq :
    (p b : ℕ) (g : DualSeqnoList)
    → GapsAbove b g.seqno_list_1 g.seqno_list_2
    → ¬ InGap p g.seqno_list_1 g.seqno_list_2
    → truncate_dual_seqnos p g ≡ done (kept_ranges p g)
unfolding truncate_dual_seqnos kept_ranges
truncate_dual_seqnos-eq p b g r n = rw (
  truncate_gap-drop p b g.seqno_list_1 (GapsAbove-starts b _ _ r)
      (λ h. n (start-InGap p b _ _ r h)),
  truncate_gap-drop p b g.seqno_list_2 (GapsAbove-ends b _ _ r) (λ h. n (end-InGap p b _ _ r h)),
  same_bound p b g.seqno_list_1 g.seqno_list_2 r n,
)

GapsAbove-lower : (a b : ℕ) (ss es : List ℕ) → a ≤ b → GapsAbove b ss es → GapsAbove a ss es
GapsAbove-lower a b [] [] h g = tt
GapsAbove-lower a b [] (e ∷ es) h g = elim g [ ]
GapsAbove-lower a b (s ∷ ss) [] h g = elim g [ ]
GapsAbove-lower a b (s ∷ ss) (e ∷ es) h g = (omega arith, g.1, g.2)

drop-GapsAbove :
    (n b : ℕ) (ss es : List ℕ) → GapsAbove b ss es → GapsAbove b (drop n ss) (drop n es)
drop-GapsAbove zero b ss es g = g
drop-GapsAbove (suc n) b [] [] g = tt
drop-GapsAbove (suc n) b [] (e ∷ es) g = elim g [ ]
drop-GapsAbove (suc n) b (s ∷ ss) [] g = elim g [ ]
drop-GapsAbove (suc n) b (s ∷ ss) (e ∷ es) g =
    GapsAbove-lower b e (drop n ss) (drop n es) (omega arith) (drop-GapsAbove n e ss es g.2)

drop-InGap : (n k : ℕ) (ss es : List ℕ) → InGap k (drop n ss) (drop n es) → InGap k ss es
drop-InGap zero k ss es h = h
drop-InGap (suc n) k [] es h = elim h [ ]
drop-InGap (suc n) k (s ∷ ss) [] h = elim (none_left (drop n ss) h) [ ]
  where
    none_left : (xs : List ℕ) → InGap k xs [] → ⊥
    none_left [] m = m
    none_left (x ∷ xs) m = m
drop-InGap (suc n) k (s ∷ ss) (e ∷ es) h = inr (drop-InGap n k ss es h)

InGap-drop :
    (p k b : ℕ) (ss es : List ℕ)
    → GapsAbove b ss es
    → ¬ InGap p ss es
    → p < k
    → InGap k ss es
    → InGap k (drop (lower_bound p ss) ss) (drop (lower_bound p ss) es)
unfolding lower_bound
InGap-drop p k b [] es g n l h = elim h [ ]
InGap-drop p k b (s ∷ ss) [] g n l h = elim g [ ]
InGap-drop p k b (s ∷ ss) (e ∷ es) g n l h = elim (Bool-cases (ltb s p)) [
  | inr before ↦ rw before h
  | inl in_front ↦ rw in_front (elim h [
    | inl here ↦ absurd (n (inl (ground arith, omega arith)))
    | inr later ↦ InGap-drop p k e ss es g.2 (λ m. n (inr m)) l later
  ])
]

pub record GapsTruncated (p : ℕ) (g g' : DualSeqnoList) : Type 0 where
  pub old :
      (k : ℕ) → InGap k g'.seqno_list_1 g'.seqno_list_2 → InGap k g.seqno_list_1 g.seqno_list_2
  pub kept :
      (k : ℕ)
      → p < k
      → InGap k g.seqno_list_1 g.seqno_list_2
      → InGap k g'.seqno_list_1 g'.seqno_list_2
  pub ranges : GapsAbove 0 g'.seqno_list_1 g'.seqno_list_2

pub kept_ranges-GapsTruncated :
    (p : ℕ) (g : DualSeqnoList)
    → GapsAbove 0 g.seqno_list_1 g.seqno_list_2
    → ¬ InGap p g.seqno_list_1 g.seqno_list_2
    → GapsTruncated p g (kept_ranges p g)
unfolding kept_ranges
kept_ranges-GapsTruncated p g r n = record {
  old = λ k. drop-InGap (lower_bound p g.seqno_list_1) k g.seqno_list_1 g.seqno_list_2;
  kept = λ k l h. InGap-drop p k 0 g.seqno_list_1 g.seqno_list_2 r n l h;
  ranges = drop-GapsAbove (lower_bound p g.seqno_list_1) 0 _ _ r;
}
