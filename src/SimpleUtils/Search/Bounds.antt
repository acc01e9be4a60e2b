-- ===== src/SimpleUtils/Search/Bounds.antt =====
-- Binary search finds the structural lower bound of every list that is split at the number.
use goxdcr.Prelude.{
  ℕ, zero, suc, ◌+◌, ◌/◌, ◌≤◌, ◌<◌, ◌≡◌, refl, ◌⊎◌, inl, inr, Bool, true, false, ◌&&◌, List, [],
  ◌∷◌, arith, ltb, leb, ◌==◌, if◌then◌else◌, length, get_or, get_elem?, some, All, In, Ascends,
  Bool-cases,
}
use goxdcr.SimpleUtils.Search.{search_loop, search, search_uint64_list}

-- How many numbers of a list stand before the first that is not below `s`.
unfoldable pub lower_bound : ℕ → List ℕ → ℕ
lower_bound s [] = 0
lower_bound s (x ∷ xs) = if ltb x s then suc (lower_bound s xs) else 0

-- The test of a binary search changes once, at `r`.
pub record Flips (f : ℕ → Bool) (n r : ℕ) : Type 0 where
  pub below : (i : ℕ) → i < r → f i ≡ false
  pub above : (i : ℕ) → r ≤ i → i < n → f i ≡ true
  pub within : r ≤ n

search_loop-eq :
    (k : ℕ) (f : ℕ → Bool) (n i j r : ℕ)
    → Flips f n r
    → i ≤ r
    → r ≤ j
    → j ≤ n
    → j ≤ i + k
    → search_loop k f i j ≡ r
unfolding search_loop
search_loop-eq zero f n i j r s a b c d = omega arith
search_loop-eq (suc k) f n i j r s a b c d = ground (
  arith,
  s.below ((i + j) / 2),
  s.above ((i + j) / 2),
  search_loop-eq k f n i ((i + j) / 2) r s,
  search_loop-eq k f n ((i + j) / 2 + 1) j r s,
)

-- `sort.Search` returns the place where a monotone test turns true.
pub search-Flips : (n r : ℕ) (f : ℕ → Bool) → Flips f n r → search n f ≡ r
unfolding search
search-Flips n r f s =
    search_loop-eq n f n 0 n r s (omega arith) s.within (omega arith) (omega arith)

-- All numbers below `s` stand before all others.
abbrev pub IsSplit : ℕ → List ℕ → Type 0
IsSplit s [] = Unit {0}
IsSplit s (x ∷ xs) = ((x < s) × IsSplit s xs) ⊎ ((s ≤ x) × All (λ y. s ≤ y) xs)

-- Whether the first number that is not below `s` is `s`.
unfoldable pub hits : ℕ → List ℕ → Bool
hits s [] = false
hits s (x ∷ xs) = if ltb x s then hits s xs else x == s

All-get_or : (s : ℕ) (xs : List ℕ) (i : ℕ) → All (λ y. s ≤ y) xs → i < length xs → s ≤ get_or xs i 0
All-get_or s [] i a h = absurd (omega arith)
All-get_or s (x ∷ xs) zero a h = a.0
All-get_or s (x ∷ xs) (suc i) a h = All-get_or s xs i a.1 (omega arith)

pub split_below :
    (s : ℕ) (xs : List ℕ) (i : ℕ) → i < lower_bound s xs → leb s (get_or xs i 0) ≡ false
unfolding lower_bound
split_below s [] i h = absurd (omega arith)
split_below s (x ∷ xs) zero h = ground arith
split_below s (x ∷ xs) (suc i) h = ground (arith, split_below s xs i)

pub split_above :
    (s : ℕ) (xs : List ℕ) (i : ℕ)
    → IsSplit s xs
    → lower_bound s xs ≤ i
    → i < length xs
    → leb s (get_or xs i 0) ≡ true
unfolding lower_bound
split_above s [] i p l h = absurd (omega arith)
split_above s (x ∷ xs) zero p l h = ground arith
split_above s (x ∷ xs) (suc i) (inl p) l h = ground (arith, split_above s xs i p.1)
split_above s (x ∷ xs) (suc i) (inr p) l h = ground (arith, All-get_or s xs i p.1)

pub lower_bound-le : (s : ℕ) (xs : List ℕ) → lower_bound s xs ≤ length xs
unfolding lower_bound
lower_bound-le s [] = omega arith
lower_bound-le s (x ∷ xs) = ground (arith, lower_bound-le s xs)

pub IsSplit-Flips :
    (s : ℕ) (xs : List ℕ)
    → IsSplit s xs
    → Flips (λ i. leb s (get_or xs i 0)) (length xs) (lower_bound s xs)
IsSplit-Flips s xs p = record {
  below = λ i. split_below s xs i;
  above = λ i. split_above s xs i p;
  within = lower_bound-le s xs;
}

hits-get_or :
    (s : ℕ) (xs : List ℕ)
    → (ltb (lower_bound s xs) (length xs) && (get_or xs (lower_bound s xs) 0 == s)) ≡ hits s xs
unfolding lower_bound hits
hits-get_or s [] = refl
hits-get_or s (x ∷ xs) = ground (arith, hits-get_or s xs)

if_pair : (b : Bool) (n : ℕ) → ◌≡◌ {A = ℕ × Bool} (if b then (n, true) else (n, false)) (n, b)
if_pair true n = refl
if_pair false n = refl

-- On a split list the search returns the lower bound, and finds the number if it stands there.
pub search_uint64_list-eq :
    (xs : List ℕ) (s : ℕ) → IsSplit s xs → search_uint64_list xs s ≡ (lower_bound s xs, hits s xs)
unfolding search_uint64_list
search_uint64_list-eq xs s p =
    rw
      (search-Flips (length xs) (lower_bound s xs) (λ i. leb s (get_or xs i 0))
        (IsSplit-Flips s xs p))
      (rw (hits-get_or s xs) (if_pair (hits s xs) (lower_bound s xs)))

Ascends-All : (s b : ℕ) (xs : List ℕ) → s ≤ b → Ascends b xs → All (λ y. s ≤ y) xs
Ascends-All s b [] h a = tt
Ascends-All s b (x ∷ xs) h a = (omega arith, Ascends-All s x xs (omega arith) a.1)

pub Ascends-IsSplit : (s b : ℕ) (xs : List ℕ) → Ascends b xs → IsSplit s xs
Ascends-IsSplit s b [] a = tt
Ascends-IsSplit s b (x ∷ xs) a = elim (Bool-cases (ltb x s)) [
  | inl l ↦ inl (ground arith, Ascends-IsSplit s x xs a.1)
  | inr g ↦ inr (ground arith, Ascends-All s x xs (ground arith) a.1)
]

not-In_of_All : (s : ℕ) (xs : List ℕ) → All (λ y. suc s ≤ y) xs → ¬ In s xs
not-In_of_All s [] a h = h
not-In_of_All s (x ∷ xs) a (inl e) = omega arith
not-In_of_All s (x ∷ xs) a (inr h) = not-In_of_All s xs a.1 h

pub hits-In : (s : ℕ) (xs : List ℕ) → hits s xs ≡ true → In s xs
unfolding hits
hits-In s [] h = cc
hits-In s (x ∷ xs) h = elim (Bool-cases (ltb x s)) [
  | inl l ↦ inr (hits-In s xs (ground arith))
  | inr g ↦ inl (ground arith)
]

pub In-hits : (s b : ℕ) (xs : List ℕ) → Ascends b xs → In s xs → hits s xs ≡ true
unfolding hits
In-hits s b [] a h = elim h [ ]
In-hits s b (x ∷ xs) a (inl e) = ground arith
In-hits s b (x ∷ xs) a (inr h) = elim (Bool-cases (ltb x s)) [
  | inl l ↦ rw l (In-hits s x xs a.1 h)
  | inr g ↦ elim (Bool-cases (x == s)) [
    | inl e ↦ rw (g, e)
    | inr n ↦ absurd (not-In_of_All s xs (Ascends-All (suc s) x xs (ground arith) a.1) h)
  ]
]

pub get_elem?-lower_bound :
    (s : ℕ) (xs : List ℕ) → hits s xs ≡ true → get_elem? xs (lower_bound s xs) ≡ some s
unfolding hits lower_bound
get_elem?-lower_bound s [] h = cc
get_elem?-lower_bound s (x ∷ xs) h = ground (arith, get_elem?-lower_bound s xs)
