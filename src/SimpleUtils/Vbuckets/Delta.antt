-- ===== src/SimpleUtils/Vbuckets/Delta.antt =====
-- The difference of two sorted lists of vbuckets.
use goxdcr.Prelude.{
  ℕ, ◌≤◌, ◌<◌, ◌≡◌, sym, ◌⊎◌, ◌↔◌, inl, inr, false, List, [], ◌∷◌, ◌++◌, arith, ltb, ◌==◌, In,
  In-append, In-append_left, In-append_right, Bool-cases,
}
use goxdcr.SimpleUtils.Vbuckets.{delta_loop, compute_delta_of_uint16_lists}

-- Above `b`, and each element below the next.
abbrev pub StrictlyAbove : ℕ → List ℕ → Type 0
StrictlyAbove b [] = Unit {0}
StrictlyAbove b (x ∷ xs) = (b < x) × StrictlyAbove x xs

abbrev pub IsStrict : List ℕ → Type 0
IsStrict [] = Unit {0}
IsStrict (x ∷ xs) = StrictlyAbove x xs

above : (b k : ℕ) (xs : List ℕ) → StrictlyAbove b xs → In k xs → b < k
above b k [] s h = elim h [ ]
above b k (x ∷ xs) s (inl e) = omega arith
above b k (x ∷ xs) s (inr h) = omega (arith, above x k xs s.1 h)

tail : (x : ℕ) (xs : List ℕ) → StrictlyAbove x xs → IsStrict xs
tail x [] s = tt
tail x (y ∷ ys) s = s.1

-- k is in the first list and not in the second.
abbrev pub OnlyIn : ℕ → List ℕ → List ℕ → Type 0
OnlyIn k xs ys = In k xs × (¬ In k ys)

-- An element before both tails is in neither.
fresh : (x k : ℕ) (xs : List ℕ) → StrictlyAbove x xs → k ≤ x → ¬ In k xs
fresh x k xs s l h = omega (arith, above x k xs s h)

same_head :
    (k x y : ℕ) (xs ys : List ℕ)
    → x ≡ y
    → StrictlyAbove x xs
    → StrictlyAbove y ys
    → OnlyIn k (x ∷ xs) (y ∷ ys) ↔ OnlyIn k xs ys
same_head k x y xs ys e sx sy = (to, from)
  where
    to : OnlyIn k (x ∷ xs) (y ∷ ys) → OnlyIn k xs ys
    to (inl i, n) = absurd (n (inl (omega arith)))
    to (inr i, n) = (i, λ j. n (inr j))

    from : OnlyIn k xs ys → OnlyIn k (x ∷ xs) (y ∷ ys)
    from (i, n) = (inr i, λ j. elim j [ inl l ↦ omega (arith, above x k xs sx i) | inr r ↦ n r ])

-- A head below the other list's stands only in its own.
low_head :
    (k x y : ℕ) (xs ys : List ℕ)
    → x < y
    → StrictlyAbove y ys
    → OnlyIn k (x ∷ xs) (y ∷ ys) ↔ ((k ≡ x) ⊎ OnlyIn k xs (y ∷ ys))
low_head k x y xs ys l sy = (to, from)
  where
    to : OnlyIn k (x ∷ xs) (y ∷ ys) → (k ≡ x) ⊎ OnlyIn k xs (y ∷ ys)
    to (inl i, n) = inl i
    to (inr i, n) = inr (i, n)

    from : (k ≡ x) ⊎ OnlyIn k xs (y ∷ ys) → OnlyIn k (x ∷ xs) (y ∷ ys)
    from (inr (i, n)) = (inr i, n)
    from (inl e) =
        (inl e, λ j. elim j [ inl m ↦ omega arith | inr m ↦ fresh y k ys sy (omega arith) m ])

high_head :
    (k x y : ℕ) (xs ys : List ℕ)
    → x < y
    → StrictlyAbove y ys
    → OnlyIn k (y ∷ ys) (x ∷ xs) ↔ OnlyIn k (y ∷ ys) xs
high_head k x y xs ys l sy = (to, from)
  where
    to : OnlyIn k (y ∷ ys) (x ∷ xs) → OnlyIn k (y ∷ ys) xs
    to (i, n) = (i, λ j. n (inr j))

    from : OnlyIn k (y ∷ ys) xs → OnlyIn k (y ∷ ys) (x ∷ xs)
    from (i, n) = (
      i,
      λ j. elim j [
        | inr r ↦ n r
        | inl e ↦ elim i [ inl m ↦ omega arith | inr m ↦ fresh y k ys sy (omega arith) m ]
      ],
    )

In-append_iff : (k : ℕ) (xs ys : List ℕ) → In k (xs ++ ys) ↔ (In k xs ⊎ In k ys)
In-append_iff k xs ys = (
  In-append k xs ys,
  λ h. elim h [ inl l ↦ In-append_left k xs ys l | inr r ↦ In-append_right k xs ys r ],
)

only_nil : (k : ℕ) (acc ys : List ℕ) → In k (acc ++ ys) ↔ (In k acc ⊎ OnlyIn k ys [])
only_nil k acc ys = (to, from)
  where
    to : In k (acc ++ ys) → In k acc ⊎ OnlyIn k ys []
    to h = elim (In-append k acc ys h) [ inl l ↦ inl l | inr r ↦ inr (r, λ n. n) ]

    from : In k acc ⊎ OnlyIn k ys [] → In k (acc ++ ys)
    from (inl l) = In-append_left k acc ys l
    from (inr r) = In-append_right k acc ys r.0

nil_only : (k : ℕ) (acc xs : List ℕ) → In k acc ↔ (In k acc ⊎ OnlyIn k [] xs)
nil_only k acc xs = (inl, λ h. elim h [ inl l ↦ l | inr r ↦ elim r.0 [ ] ])

module _ {R A B C : Type 0} where
  through_right : R ↔ (A ⊎ B) → C ↔ B → R ↔ (A ⊎ C)
  through_right r e = (
    λ h. elim (r.0 h) [ inl a ↦ inl a | inr b ↦ inr (e.1 b) ],
    λ h. elim h [ inl a ↦ r.1 (inl a) | inr c ↦ r.1 (inr (e.0 c)) ],
  )

through_last :
    {R B C : Type 0}
    → (k z : ℕ) (acc : List ℕ) → R ↔ (In k (acc ++ z ∷ []) ⊎ B)
    → C ↔ ((k ≡ z) ⊎ B)
    → R ↔ (In k acc ⊎ C)
through_last {R} {B} {C} k z acc r e = (to, from)
  where
    to : R → In k acc ⊎ C
    to h = elim (r.0 h) [
      | inl a ↦ elim (In-append k acc (z ∷ []) a) [
        | inl l ↦ inl l
        | inr (inl q) ↦ inr (e.1 (inl q))
        | inr (inr q) ↦ elim q [ ]
      ]
      | inr b ↦ inr (e.1 (inr b))
    ]

    from : In k acc ⊎ C → R
    from (inl a) = r.1 (inl (In-append_left k acc (z ∷ []) a))
    from (inr c) = elim (e.0 c) [
      | inl q ↦ r.1 (inl (In-append_right k acc (z ∷ []) (inl q)))
      | inr b ↦ r.1 (inr b)
    ]

-- What a run of the loop leaves in the two results.
record IsDelta (removed new xs ys : List ℕ) (k : ℕ) (r : List ℕ × List ℕ) : Type 0 where
  gone : In k r.0 ↔ (In k removed ⊎ OnlyIn k xs ys)
  come : In k r.1 ↔ (In k new ⊎ OnlyIn k ys xs)

delta_loop-IsDelta :
    (removed new xs ys : List ℕ) (k : ℕ)
    → IsStrict xs
    → IsStrict ys
    → IsDelta removed new xs ys k (delta_loop removed new xs ys)
unfolding delta_loop
delta_loop-IsDelta removed new [] ys k sx sy = record {
  gone = nil_only k removed ys;
  come = only_nil k new ys;
}
delta_loop-IsDelta removed new (x ∷ xs) [] k sx sy = record {
  gone = only_nil k removed (x ∷ xs);
  come = nil_only k new (x ∷ xs);
}
delta_loop-IsDelta removed new (x ∷ xs) (y ∷ ys) k sx sy = elim (Bool-cases (x == y)) [
  | inl e ↦
      let x_y : x ≡ y = ground arith in
      let rest = delta_loop-IsDelta removed new xs ys k (tail x xs sx) (tail y ys sy) in
      rw (e, delta_loop)
        (record {
          gone = through_right rest.gone (same_head k x y xs ys x_y sx sy);
          come = through_right rest.come (same_head k y x ys xs (sym x_y) sy sx);
        })
  | inr n ↦ elim (Bool-cases (ltb y x)) [
    | inl lt ↦
        let y_x : y < x = ground arith in
        let rest = delta_loop-IsDelta removed (new ++ y ∷ []) (x ∷ xs) ys k sx (tail y ys sy) in
        rw (n, lt, delta_loop)
          (record {
            gone = through_right rest.gone (high_head k y x ys xs y_x sx);
            come = through_last k y new rest.come (low_head k y x ys xs y_x sx);
          })
    | inr ge ↦
        let x_y : x < y = ground arith in
        let rest = delta_loop-IsDelta (removed ++ x ∷ []) new xs (y ∷ ys) k (tail x xs sx) sy in
        rw (n, ge, delta_loop)
          (record {
            gone = through_last k x removed rest.gone (low_head k x y xs ys x_y sy);
            come = through_right rest.come (high_head k x y xs ys x_y sy);
          })
  ]
]

-- On two lists in strict order, the first result has the vbuckets that only the first list has, and
-- the second those that only the second has.
pub compute_delta_of_uint16_lists-OnlyIn :
    (list_1 list_2 : List ℕ) (vb : ℕ)
    → IsStrict list_1
    → IsStrict list_2
    → (In vb (compute_delta_of_uint16_lists list_1 list_2 false).0 ↔ OnlyIn vb list_1 list_2)
      × (In vb (compute_delta_of_uint16_lists list_1 list_2 false).1 ↔ OnlyIn vb list_2 list_1)
unfolding compute_delta_of_uint16_lists
compute_delta_of_uint16_lists-OnlyIn list_1 list_2 vb s_1 s_2 =
    let d = delta_loop-IsDelta [] [] list_1 list_2 vb s_1 s_2 in
    (from_empty d.gone, from_empty d.come)
  where
    from_empty : {R A : Type 0} → R ↔ (⊥ ⊎ A) → R ↔ A
    from_empty e = (λ r. elim (e.0 r) [ inl b ↦ elim b [ ] | inr a ↦ a ], λ a. e.1 (inr a))
