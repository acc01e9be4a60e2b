-- ===== src/DataPool/Classes.antt =====
-- The size of the slices that the pool hands out.
use goxdcr.Prelude.{
  ℕ, zero, suc, ◌≤◌, ◌<◌, ◌≡◌, refl, subst, ◌∙◌, ◌⊎◌, inl, inr, true, false, Option, none, some,
  List, [], ◌∷◌, ◌++◌, arith, ltb, leb, ◌==◌, get_elem?, get_or, take, drop, length, All,
  All-append, IsSorted, Ascends, Bool-cases, Option-cases,
}
use goxdcr.SimpleUtils.Search.Bounds.{
  lower_bound, search-Flips, split_above, split_below, IsSplit-Flips, Ascends-IsSplit, IsSplit,
}
use goxdcr.DataPool.{
  num_of_sizes, byte_slice_pool_classes, class, ByteSlice, DataPool, set_pool, pool_get, class_of,
  get_byte_slice, put_byte_slice,
}

classes-IsSorted : IsSorted byte_slice_pool_classes
classes-IsSorted = ground arith

classes-IsSplit : (size : ℕ) → IsSplit size byte_slice_pool_classes
classes-IsSplit size = Ascends-IsSplit size 0 byte_slice_pool_classes classes-IsSorted

class_of-lower_bound : (size : ℕ) → class_of size ≡ lower_bound size byte_slice_pool_classes
unfolding class_of
class_of-lower_bound size =
    search-Flips num_of_sizes (lower_bound size byte_slice_pool_classes) (λ i. leb size (class i))
      (IsSplit-Flips size byte_slice_pool_classes (classes-IsSplit size))

-- The class found is large enough, and those before it are not.
class_of-large : (size : ℕ) → class_of size < num_of_sizes → size ≤ class (class_of size)
class_of-large size h =
    let e : leb size (class (class_of size)) ≡ true =
      split_above size byte_slice_pool_classes (class_of size) (classes-IsSplit size)
        (omega (arith, class_of-lower_bound size)) h in
    ground arith

class_of-least : (size i : ℕ) → i < class_of size → class i < size
class_of-least size i h =
    let e : leb size (class i) ≡ false =
      split_below size byte_slice_pool_classes i (omega (arith, class_of-lower_bound size)) in
    ground arith

Ascends-get_or : (b j : ℕ) (xs : List ℕ) → Ascends b xs → j < length xs → b ≤ get_or xs j 0
Ascends-get_or b j [] a h = absurd (omega arith)
Ascends-get_or b zero (x ∷ xs) a h = a.0
Ascends-get_or b (suc j) (x ∷ xs) a h = omega (arith, a.0, Ascends-get_or x j xs a.1 (omega arith))

get_or_mono :
    (b i j : ℕ) (xs : List ℕ) → Ascends b xs → i ≤ j → j < length xs → get_or xs i 0 ≤ get_or xs j 0
get_or_mono b i j [] a h l = absurd (omega arith)
get_or_mono b zero zero (x ∷ xs) a h l = omega arith
get_or_mono b zero (suc j) (x ∷ xs) a h l = Ascends-get_or x j xs a.1 (omega arith)
get_or_mono b (suc i) zero (x ∷ xs) a h l = absurd (omega arith)
get_or_mono b (suc i) (suc j) (x ∷ xs) a h l = get_or_mono x i j xs a.1 (omega arith) (omega arith)

-- A slice of the length and the capacity of its class.
abbrev pub IsOfClass : ℕ → ByteSlice → Type 0
IsOfClass i slice = (slice.len ≡ class i) × (slice.cap ≡ class i)

abbrev pub IsStocked : DataPool → Type 0
IsStocked p = (i : ℕ) → All (IsOfClass i) (p.byte_slice_pools i)

All-at :
    (P : ByteSlice → Type 0) (n : ℕ) (s : ByteSlice) (xs : List ByteSlice)
    → All P xs
    → get_elem? xs n ≡ some s
    → P s
All-at P n s [] a e = cc
All-at P zero s (x ∷ xs) a e = subst (λ o. elim o [ none ↦ P x | some y ↦ P y ]) e a.0
All-at P (suc n) s (x ∷ xs) a e = All-at P n s xs a.1 e

All-without :
    (P : ByteSlice → Type 0) (n : ℕ) (xs : List ByteSlice)
    → All P xs
    → All P (take n xs ++ drop (suc n) xs)
All-without P zero [] a = tt
All-without P zero (x ∷ xs) a = a.1
All-without P (suc n) [] a = tt
All-without P (suc n) (x ∷ xs) a = (a.0, All-without P n xs a.1)

set_pool-IsStocked :
    (i : ℕ) (slices : List ByteSlice) (p : DataPool)
    → All (IsOfClass i) slices
    → IsStocked p
    → IsStocked (set_pool i slices p)
unfolding set_pool
set_pool-IsStocked i slices p a s k = elim (Bool-cases (k == i)) [
  | inl e ↦ let same : i ≡ k = ground arith in rw e (subst (λ j. All (IsOfClass j) slices) same a)
  | inr n ↦ rw n (s k)
]

pool_get-IsStocked :
    (choice : Option ℕ) (i : ℕ) (p : DataPool)
    → IsStocked p
    → (let r = pool_get choice i p in IsOfClass i r.0 × IsStocked r.1)
unfolding pool_get
pool_get-IsStocked none i p s = ((refl, refl), s)
pool_get-IsStocked (some n) i p s = elim (Option-cases (get_elem? (p.byte_slice_pools i) n)) [
  | inl e ↦ rw (e, pool_get) ((refl, refl), s)
  | inr (slice, e) ↦
      rw (e, pool_get)
        (
          All-at (IsOfClass i) n slice (p.byte_slice_pools i) (s i) e,
          set_pool-IsStocked i
              (take n (p.byte_slice_pools i) ++ drop (suc n) (p.byte_slice_pools i)) p
              (All-without (IsOfClass i) n (p.byte_slice_pools i) (s i)) s,
        )
]

-- From a pool that holds slices of the length and capacity of their classes, whichever it picks: a
-- request of up to 21 MB gets a slice of the smallest class that is long enough, and the pool stays so;
-- a longer request gets none.
get_byte_slice_cases :
    (choice : Option ℕ) (size : ℕ) (p : DataPool)
    → IsStocked p
    → ((i : ℕ) × (slice : ByteSlice) × (p' : DataPool) × (get_byte_slice choice size p
          ≡ some (slice, p'))
        × (slice.len ≡ class i)
        × (size ≤ slice.len)
        × ((j : ℕ) → j < i → class j < size)
        × IsStocked p')
      ⊎ ((get_byte_slice choice size p ≡ none) × (22020096 < size))
unfolding get_byte_slice
get_byte_slice_cases choice size p s = elim (Bool-cases (ltb (class_of size) num_of_sizes)) [
  | inl l ↦
      let i = class_of size in
      let (of_class, stocked) = pool_get-IsStocked choice i p s in
      let large = class_of-large size (ground arith) in
      rw l (
        inl (
          i,
          (pool_get choice i p).0,
          (pool_get choice i p).1,
          refl,
          of_class.0,
          omega (arith, of_class.0, large),
          λ j. class_of-least size j,
          stocked,
        ))
  | inr g ↦ rw g (inr (refl, class_of-least size 19 (ground arith)))
]

-- A slice with the length and the capacity of a class, put back, keeps the pool so.
pub put_byte_slice-IsStocked :
    (k : ℕ) (slice : ByteSlice) (p : DataPool)
    → k < num_of_sizes
    → IsOfClass k slice
    → IsStocked p
    → IsStocked (put_byte_slice slice p)
unfolding put_byte_slice
put_byte_slice-IsStocked k slice p h c s =
    elim (Bool-cases (ltb (class_of slice.cap) num_of_sizes)) [
      | inr g ↦ rw g s
      | inl l ↦
          let i = class_of slice.cap in
          let large = class_of-large slice.cap (ground arith) in
          let before = class_of-least slice.cap k in
          let le : i ≤ k = ground (arith, before, c.1) in
          let mono = get_or_mono 0 i k byte_slice_pool_classes classes-IsSorted le h in
          let same : class k ≡ class i = omega (arith, mono, large, c.1) in
          rw l (
            set_pool-IsStocked i (p.byte_slice_pools i ++ slice ∷ []) p
              (All-append (IsOfClass i) (p.byte_slice_pools i) (slice ∷ []) (s i)
                ((c.0 ∙ same, c.1 ∙ same), tt))
              s)
    ]
