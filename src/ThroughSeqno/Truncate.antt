-- ===== src/ThroughSeqno/Truncate.antt =====
-- Truncation of the sequence number lists, also of a list that has grown since it was sorted.
use goxdcr.Prelude.{
  ℕ, zero, suc, ◌+◌, ◌≤◌, ◌<◌, ◌≡◌, refl, inl, inr, Bool, true, false, List, [], ◌∷◌, ◌++◌, arith,
  ltb, lt→ltb, ap, ◌==◌, if◌then◌else◌, drop, All, In, Ascends, IsSorted, Bool-cases,
}
use goxdcr.SimpleUtils.Search.Bounds.{lower_bound, hits, IsSplit, search_uint64_list-eq}
use goxdcr.ThroughSeqno.Lists.{truncate_seqnos}

-- The list without the numbers before `p`, and without `p` itself if it comes next.
after_seqno : ℕ → List ℕ → List ℕ
after_seqno p [] = []
after_seqno p (x ∷ xs) = if ltb x p then after_seqno p xs else if x == p then xs else x ∷ xs

cut-eq :
    (p : ℕ) (xs : List ℕ)
    → (if hits p xs
        then drop (lower_bound p xs + 1) xs
        else if ltb 0 (lower_bound p xs)
        then drop (lower_bound p xs) xs
        else xs)
      ≡ after_seqno p xs
unfolding hits lower_bound after_seqno
cut-eq p [] = refl
cut-eq p (x ∷ xs) = elim (Bool-cases (ltb x p)) [
  | inr n ↦
      rw n
        (elim (x == p)
          as (λ b.
            (if b then drop (0 + 1) (x ∷ xs) else if ltb 0 0 then drop 0 (x ∷ xs) else x ∷ xs)
            ≡ (if b then xs else x ∷ xs)) [ true ↦ refl | false ↦ refl ])
  | inl l ↦
      let e : suc (lower_bound p xs) + 1 ≡ suc (lower_bound p xs + 1) = omega arith in
      rw (l, e) (grow (hits p xs) (lower_bound p xs) (cut-eq p xs))
]
  where
    grow :
        (b : Bool) (n : ℕ)
        → (if b then drop (n + 1) xs else if ltb 0 n then drop n xs else xs) ≡ after_seqno p xs
        → (if b then drop (n + 1) xs else if ltb 0 (suc n) then drop n xs else x ∷ xs)
          ≡ after_seqno p xs
    grow true n h = h
    grow false zero h = h
    grow false (suc n) h = ground arith

truncate-eq : (p : ℕ) (xs : List ℕ) → IsSplit p xs → truncate_seqnos p xs ≡ after_seqno p xs
unfolding truncate_seqnos
truncate-eq p xs s = rw (search_uint64_list-eq xs p s) (cut-eq p xs)

after_seqno-In : (p k : ℕ) (xs : List ℕ) → In k (after_seqno p xs) → In k xs
unfolding after_seqno
after_seqno-In p k [] h = h
after_seqno-In p k (x ∷ xs) h = ground (arith, after_seqno-In p k xs)

In-after_seqno : (p k : ℕ) (xs : List ℕ) → p < k → In k xs → In k (after_seqno p xs)
unfolding after_seqno
In-after_seqno p k [] l h = h
In-after_seqno p k (x ∷ xs) l (inl e) = ground arith
In-after_seqno p k (x ∷ xs) l (inr h) = ground (arith, In-after_seqno p k xs)

All-In : (p k : ℕ) (xs : List ℕ) → All (λ y. p ≤ y) xs → In k xs → p ≤ k
All-In p k [] a h = elim h [ ]
All-In p k (x ∷ xs) a (inl e) = omega arith
All-In p k (x ∷ xs) a (inr h) = All-In p k xs a.1 h

after_seqno-ge : (p k : ℕ) (xs : List ℕ) → IsSplit p xs → In k (after_seqno p xs) → p ≤ k
unfolding after_seqno
after_seqno-ge p k [] s h = elim h [ ]
after_seqno-ge p k (x ∷ xs) (inl s) h = ground (arith, after_seqno-ge p k xs s.1)
after_seqno-ge p k (x ∷ xs) (inr s) h = ground (arith, All-In p k xs s.1)

pub Ascends-lower : (a b : ℕ) (xs : List ℕ) → a ≤ b → Ascends b xs → Ascends a xs
Ascends-lower a b [] h s = tt
Ascends-lower a b (x ∷ xs) h s = (omega arith, s.1)

after_seqno-Ascends : (p b : ℕ) (xs : List ℕ) → Ascends b xs → Ascends b (after_seqno p xs)
unfolding after_seqno
after_seqno-Ascends p b [] s = s
after_seqno-Ascends p b (x ∷ xs) s =
    ground (
      arith,
      Ascends-lower b x (after_seqno p xs),
      Ascends-lower b x xs,
      after_seqno-Ascends p x xs,
    )

All-IsSplit : (q : ℕ) (xs : List ℕ) → All (λ y. q ≤ y) xs → IsSplit q xs
All-IsSplit q [] a = tt
All-IsSplit q (x ∷ xs) a = inr a

after_seqno-IsSplit : (p q : ℕ) (xs : List ℕ) → IsSplit q xs → IsSplit q (after_seqno p xs)
unfolding after_seqno
after_seqno-IsSplit p q [] s = s
after_seqno-IsSplit p q (x ∷ xs) (inl s) = ground (arith, after_seqno-IsSplit p q xs s.1)
after_seqno-IsSplit p q (x ∷ xs) (inr s) =
    ground (arith, All-IsSplit q xs s.1, after_seqno-IsSplit p q xs (All-IsSplit q xs s.1))

pub IsSplit-append : (q m : ℕ) (xs : List ℕ) → q < m → IsSplit q xs → IsSplit q (xs ++ m ∷ [])
IsSplit-append q m [] l s = inr (omega arith, tt)
IsSplit-append q m (x ∷ xs) l (inl s) = inl (s.0, IsSplit-append q m xs l s.1)
IsSplit-append q m (x ∷ xs) l (inr s) = inr (s.0, All-snoc xs s.1)
  where
    All-snoc : (ys : List ℕ) → All (λ y. q ≤ y) ys → All (λ y. q ≤ y) (ys ++ m ∷ [])
    All-snoc [] a = (omega arith, tt)
    All-snoc (y ∷ ys) a = (a.0, All-snoc ys a.1)

-- A list without its first number, if that is `p`.
abbrev pub without_first : ℕ → List ℕ → List ℕ
without_first p [] = []
without_first p (x ∷ xs) = if x == p then xs else x ∷ xs

-- `ys` is `xs` without the numbers below `p`, and without the first of the others if that is `p`.
abbrev pub IsCut : ℕ → List ℕ → List ℕ → Type 0
IsCut p xs ys =
    (smaller : List ℕ) × (others : List ℕ) × (xs ≡ smaller ++ others)
    × All (λ y. y < p) smaller
    × All (λ y. p ≤ y) others
    × (ys ≡ without_first p others)

after_seqno-IsCut : (p : ℕ) (xs : List ℕ) → IsSplit p xs → IsCut p xs (after_seqno p xs)
unfolding after_seqno
after_seqno-IsCut p [] s = ([], [], refl, tt, tt, refl)
after_seqno-IsCut p (x ∷ xs) (inl (l, s)) =
    let (smaller, others, e, a, b, c) = after_seqno-IsCut p xs s in
    (x ∷ smaller, others, ap (λ t. x ∷ t) e, (l, a), b, rw (lt→ltb x p l) c)
after_seqno-IsCut p (x ∷ xs) (inr (l, a)) =
    let e : ltb x p ≡ false = ground arith in ([], x ∷ xs, refl, tt, (l, a), rw e refl)

-- Each number is larger than those before it.
abbrev pub Rises : List ℕ → Type 0
Rises [] = Unit
Rises (x ∷ xs) = All (λ y. x < y) xs × Rises xs

All-above : (b k : ℕ) (xs : List ℕ) → All (λ y. b < y) xs → In k xs → b < k
All-above b k [] a h = elim h [ ]
All-above b k (x ∷ xs) a (inl e) = omega arith
All-above b k (x ∷ xs) a (inr h) = All-above b k xs a.1 h

after_seqno-above : (p k : ℕ) (xs : List ℕ) → Rises xs → In k (after_seqno p xs) → p < k
unfolding after_seqno
after_seqno-above p k [] r h = elim h [ ]
after_seqno-above p k (x ∷ xs) (a, r) h =
    ground (arith, after_seqno-above p k xs r, All-above x k xs a)

-- What a truncation does to a list on which its binary search works.
pub record Truncated (p : ℕ) (xs ys : List ℕ) : Type 0 where
  pub old : (k : ℕ) → In k ys → In k xs
  pub kept : (k : ℕ) → p < k → In k xs → In k ys
  pub no_smaller : (k : ℕ) → In k ys → p ≤ k
  pub cut : IsCut p xs ys
  pub all_above : Rises xs → (k : ℕ) → In k ys → p < k
  pub sorted : IsSorted xs → IsSorted ys
  pub split : (q : ℕ) → IsSplit q xs → IsSplit q ys

-- If the numbers below `p` stand before all others, a truncation drops exactly these, and the first of
-- the others if that is `p`. So it keeps every number above `p`, adds none, keeps a sorted list sorted,
-- and of a list in strictly rising order it leaves only the numbers above `p`.
pub truncate_seqnos-Truncated :
    (p : ℕ) (xs : List ℕ) → IsSplit p xs → Truncated p xs (truncate_seqnos p xs)
truncate_seqnos-Truncated p xs s = rw (truncate-eq p xs s) (record {
  old = λ k. after_seqno-In p k xs;
  kept = λ k. In-after_seqno p k xs;
  no_smaller = λ k. after_seqno-ge p k xs s;
  cut = after_seqno-IsCut p xs s;
  all_above = λ r k. after_seqno-above p k xs r;
  sorted = after_seqno-Ascends p 0 xs;
  split = λ q. after_seqno-IsSplit p q xs;
})
