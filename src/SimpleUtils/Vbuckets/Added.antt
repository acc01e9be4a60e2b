-- ===== src/SimpleUtils/Vbuckets/Added.antt =====
-- A vbucket added to a sorted list of vbuckets.
use goxdcr.Prelude.{
  ℕ, zero, suc, ◌≤◌, ◌≡◌, refl, sym, subst, ◌⊎◌, ◌↔◌, inl, inr, List, [], ◌∷◌, ◌++◌, arith, ltb,
  take, drop, In, IsSorted, Ascends, Bool-cases,
}
use goxdcr.SimpleUtils.Search.{search_uint64_list}
use goxdcr.SimpleUtils.Search.Bounds.{
  lower_bound, hits, hits-In, In-hits, search_uint64_list-eq, Ascends-IsSplit,
}
use goxdcr.SimpleUtils.Vbuckets.{search_vb_in_sorted_list, add_vb_to_sorted_list}

-- The two binary searches of the file are the same function.
searches_agree : (s : ℕ) (xs : List ℕ) → search_vb_in_sorted_list s xs ≡ search_uint64_list xs s
unfolding search_vb_in_sorted_list search_uint64_list
searches_agree s xs = refl

-- What is before the place, and what is from it on.
inserted-Ascends :
    (s b : ℕ) (xs : List ℕ)
    → b ≤ s
    → Ascends b xs
    → Ascends b (take (lower_bound s xs) xs ++ (s ∷ drop (lower_bound s xs) xs))
unfolding lower_bound
inserted-Ascends s b [] h a = (h, tt)
inserted-Ascends s b (x ∷ xs) h a = elim (Bool-cases (ltb x s)) [
  | inl l ↦ rw l (a.0, inserted-Ascends s x xs (ground arith) a.1)
  | inr g ↦ rw g (h, (ground arith, a.1))
]

second : {R S A X : Type 0} → R ↔ (S ⊎ A) → (X ⊎ R) ↔ (S ⊎ (X ⊎ A))
second {R} {S} {A} {X} e = (to, from)
  where
    to : X ⊎ R → S ⊎ (X ⊎ A)
    to (inl x) = inr (inl x)
    to (inr r) = elim (e.0 r) [ inl s ↦ inl s | inr a ↦ inr (inr a) ]

    from : S ⊎ (X ⊎ A) → X ⊎ R
    from (inl s) = inr (e.1 (inl s))
    from (inr (inl x)) = inl x
    from (inr (inr a)) = inr (e.1 (inr a))

inserted_iff : (k s i : ℕ) (xs : List ℕ) → In k (take i xs ++ (s ∷ drop i xs)) ↔ ((k ≡ s) ⊎ In k xs)
inserted_iff k s zero xs = (λ h. h, λ h. h)
inserted_iff k s (suc i) [] = (λ h. h, λ h. h)
inserted_iff k s (suc i) (x ∷ xs) = second (inserted_iff k s i xs)

-- Adding a vbucket to a sorted list gives a sorted list of the old vbuckets and the new one, and a
-- list that has the vbucket is not changed.
pub add_vb_to_sorted_list_lem :
    (vb : ℕ) (vb_list : List ℕ)
    → IsSorted vb_list
    → IsSorted (add_vb_to_sorted_list vb vb_list)
      × ((k : ℕ) → In k (add_vb_to_sorted_list vb vb_list) ↔ ((k ≡ vb) ⊎ In k vb_list))
      × (In vb vb_list → add_vb_to_sorted_list vb vb_list ≡ vb_list)
unfolding add_vb_to_sorted_list
add_vb_to_sorted_list_lem vb xs a = rw (searches_agree vb xs) (
    rw (search_uint64_list-eq xs vb (Ascends-IsSplit vb 0 xs a)) (elim (Bool-cases (hits vb xs)) [
      | inl h ↦ rw h (a, λ k. (inr, known k (hits-In vb xs h)), λ m. refl)
      | inr h ↦ rw h (
        inserted-Ascends vb 0 xs (omega arith) a,
        λ k. inserted_iff k vb (lower_bound vb xs) xs,
        λ m. absurd (ground (arith, In-hits vb 0 xs a m)),
      )
    ]))
  where
    known : (k : ℕ) → In vb xs → (k ≡ vb) ⊎ In k xs → In k xs
    known k m (inl e) = subst (λ j. In j xs) (sym e) m
    known k m (inr h) = h
