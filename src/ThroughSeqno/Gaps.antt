-- ===== src/ThroughSeqno/Gaps.antt =====
-- Gap ranges in order, and the searches over sorted lists that the computation makes.
use goxdcr.Prelude.{
  ap, ℕ, zero, suc, ◌-◌, ◌≤◌, ◌<◌, ◌≡◌, refl, ◌⊎◌, inl, inr, Bool, true, false, none, some, List,
  [], ◌∷◌, Outcome, done, ◌>>=◌, or_panic, arith, ltb, leb, ◌==◌, if◌then◌else◌, get_elem?, In,
  Ascends, IsSorted, Bool-cases,
}
use goxdcr.SimpleUtils.Search.Bounds.{
  lower_bound, hits, search_uint64_list-eq, Ascends-IsSplit, hits-In, In-hits,
  get_elem?-lower_bound,
}
use goxdcr.ThroughSeqno.Lists.{is_seqno_gap_seqno}
use goxdcr.ThroughSeqno.Compute.{max_seqno, probe}

-- The ranges are not empty, do not meet, and stand in order above `b`.
abbrev pub GapsAbove : ℕ → List ℕ → List ℕ → Type 0
GapsAbove b [] [] = Unit {0}
GapsAbove b [] (e ∷ es) = ⊥
GapsAbove b (s ∷ ss) [] = ⊥
GapsAbove b (s ∷ ss) (e ∷ es) = (b < s) × (s ≤ e) × GapsAbove e ss es

abbrev pub InGap : ℕ → List ℕ → List ℕ → Type 0
InGap k [] es = ⊥
InGap k (s ∷ ss) [] = ⊥
InGap k (s ∷ ss) (e ∷ es) = ((s ≤ k) × (k ≤ e)) ⊎ InGap k ss es

pub GapsAbove-starts : (b : ℕ) (ss es : List ℕ) → GapsAbove b ss es → Ascends b ss
GapsAbove-starts b [] es g = tt
GapsAbove-starts b (s ∷ ss) [] g = elim g [ ]
GapsAbove-starts b (s ∷ ss) (e ∷ es) g =
    (omega arith, Ascends-mono s e ss g.1 (GapsAbove-starts e ss es g.2))
  where
    Ascends-mono : (a c : ℕ) (xs : List ℕ) → a ≤ c → Ascends c xs → Ascends a xs
    Ascends-mono a c [] h p = tt
    Ascends-mono a c (x ∷ xs) h p = (omega arith, p.1)

pub InGap-above : (b k : ℕ) (ss es : List ℕ) → GapsAbove b ss es → InGap k ss es → b < k
InGap-above b k [] es g h = elim h [ ]
InGap-above b k (s ∷ ss) [] g h = elim h [ ]
InGap-above b k (s ∷ ss) (e ∷ es) g (inl h) = omega arith
InGap-above b k (s ∷ ss) (e ∷ es) g (inr h) = omega (arith, InGap-above e k ss es g.2 h)

pub InGap-le-max : (b k : ℕ) (ss es : List ℕ) → GapsAbove b ss es → InGap k ss es → k ≤ max_seqno es
unfolding max_seqno
InGap-le-max b k [] es g h = elim h [ ]
InGap-le-max b k (s ∷ ss) [] g h = elim h [ ]
InGap-le-max b k (s ∷ []) (e ∷ []) g (inl h) = h.1
InGap-le-max b k (s ∷ []) (e ∷ []) g (inr h) = elim h [ ]
InGap-le-max b k (s ∷ []) (e ∷ f ∷ es) g h = elim g.2 [ ]
InGap-le-max b k (s ∷ t ∷ ss) (e ∷ []) g h = elim g.2 [ ]
InGap-le-max b k (s ∷ t ∷ ss) (e ∷ f ∷ es) g (inl h) =
    omega (arith, InGap-le-max e t (t ∷ ss) (f ∷ es) g.2 (inl (omega arith, omega arith)))
InGap-le-max b k (s ∷ t ∷ ss) (e ∷ f ∷ es) g (inr h) = InGap-le-max e k (t ∷ ss) (f ∷ es) g.2 h

pub In-le-max : (b k : ℕ) (xs : List ℕ) → Ascends b xs → In k xs → k ≤ max_seqno xs
unfolding max_seqno
In-le-max b k [] a h = elim h [ ]
In-le-max b k (x ∷ []) a (inl e) = omega arith
In-le-max b k (x ∷ []) a (inr h) = elim h [ ]
In-le-max b k (x ∷ y ∷ xs) a (inl e) = omega (arith, In-le-max x y (y ∷ xs) a.1 (inl refl))
In-le-max b k (x ∷ y ∷ xs) a (inr h) = In-le-max x k (y ∷ xs) a.1 h

-- A lookup finds a number of a sorted list where it stands, and no other number.
pub probe_cases :
    (k : ℕ) (xs : List ℕ)
    → IsSorted xs
    → ((i : ℕ) × (probe xs k ≡ some i) × (get_elem? xs i ≡ some k) × In k xs)
      ⊎ ((probe xs k ≡ none) × (¬ In k xs))
unfolding probe
probe_cases k xs a =
    rw (search_uint64_list-eq xs k (Ascends-IsSplit k 0 xs a)) (elim (Bool-cases (hits k xs)) [
      | inl h ↦
          let m = hits-In k xs h in
          let l = In-le-max 0 k xs a m in
          inl (lower_bound k xs, ground arith, get_elem?-lower_bound k xs h, m)
      | inr n ↦ inr (ground arith, λ m. cc (In-hits k 0 xs a m))
    ])

-- What the lookup of a gap range answers, in terms of the lists alone.
gap_at : List ℕ → List ℕ → ℕ → Bool × ℕ
gap_at [] es k = (false, 0)
gap_at (s ∷ ss) [] k = (false, 0)
gap_at (s ∷ ss) (e ∷ es) k =
    let rest = gap_at ss es k in if ltb k s then (false, 0) else if leb k e then (true, e) else rest

-- The answer, given what the search for the start of a range says.
answer_at : ℕ → Bool → ℕ → List ℕ → Outcome (Bool × ℕ)
answer_at k hit index es =
    if hit
    then (or_panic (get_elem? es index) >>= λ e. done (true, e))
    else if index == 0
    then done (false, 0)
    else (or_panic (get_elem? es (index - 1)) >>= λ e.
        if leb k e then done (true, e) else done (false, 0))

-- One more range in front.
answer_at_first :
    (k e : ℕ) (es : List ℕ)
    → answer_at k false 1 (e ∷ es) ≡ (if leb k e then done (true, e) else done (false, 0))
unfolding answer_at
answer_at_first k e es = refl

answer_at_past :
    (k : ℕ) (hit : Bool) (i e : ℕ) (es : List ℕ)
    → leb k e ≡ false
    → answer_at k hit (suc i) (e ∷ es) ≡ answer_at k hit i es
unfolding answer_at
answer_at_past k true i e es h = refl
answer_at_past k false zero e es h = rw h
answer_at_past k false (suc i) e es h =
    let p : suc (suc i) - 1 ≡ suc i = omega arith in
    let q : suc i - 1 ≡ i = omega arith in rw (p, q) (ground arith)

not_started :
    (k b : ℕ) (ss es : List ℕ)
    → GapsAbove b ss es
    → k ≤ b
    → (hits k ss ≡ false) × (lower_bound k ss ≡ 0)
unfolding hits lower_bound
not_started k b [] es g h = (refl, refl)
not_started k b (s ∷ ss) [] g h = elim g [ ]
not_started k b (s ∷ ss) (e ∷ es) g h = ground arith

gap_at-cons :
    (k s e : ℕ) (ss es : List ℕ)
    → s < k
    → gap_at (s ∷ ss) (e ∷ es) k ≡ (if leb k e then (true, e) else gap_at ss es k)
unfolding gap_at
gap_at-cons k s e ss es h = ground arith

module _ (k : ℕ) where
  answer_at-gap_at :
      (b : ℕ) (ss es : List ℕ)
      → GapsAbove b ss es
      → answer_at k (hits k ss) (lower_bound k ss) es ≡ done (gap_at ss es k)
  unfolding hits lower_bound
  answer_at-gap_at b [] es g = unfold answer_at gap_at in refl
  answer_at-gap_at b (s ∷ ss) [] g = elim g [ ]
  answer_at-gap_at b (s ∷ ss) (e ∷ es) g = elim (Bool-cases (ltb s k)) [
    | inr n ↦ rw n (unfold answer_at gap_at in ground arith)
    | inl l ↦
        rw (l, gap_at-cons k s e ss es (ground arith))
          (elim (Bool-cases (leb k e)) [
            | inl in_range ↦
                let none_yet = not_started k e ss es g.2 (ground arith) in
                rw (none_yet.0, none_yet.1, answer_at_first k e es, in_range)
            | inr past ↦
                rw (answer_at_past k (hits k ss) (lower_bound k ss) e es past, past)
                  (answer_at-gap_at e ss es g.2)
          ])
  ]

  is_seqno_gap_seqno-gap_at :
      (b : ℕ) (ss es : List ℕ)
      → GapsAbove b ss es
      → is_seqno_gap_seqno ss es k ≡ done (gap_at ss es k)
  unfolding is_seqno_gap_seqno
  is_seqno_gap_seqno-gap_at b [] es g = unfold gap_at in refl
  is_seqno_gap_seqno-gap_at b (s ∷ ss) es g =
      rw
        (search_uint64_list-eq (s ∷ ss) k
          (Ascends-IsSplit k b (s ∷ ss) (GapsAbove-starts b (s ∷ ss) es g)))
        (rw (← answer_at-gap_at b (s ∷ ss) es g) (unfold answer_at in ground arith))

InGap-first :
    (k b s e : ℕ) (ss es : List ℕ)
    → GapsAbove b (s ∷ ss) (e ∷ es)
    → InGap k (s ∷ ss) (e ∷ es)
    → s ≤ k
InGap-first k b s e ss es g (inl h) = h.0
InGap-first k b s e ss es g (inr h) = omega (arith, InGap-above e k ss es g.2 h)

gap_at_cases :
    (k b : ℕ) (ss es : List ℕ)
    → GapsAbove b ss es
    → ((e : ℕ) × (gap_at ss es k ≡ (true, e)) × (k ≤ e) × ((m : ℕ) → k ≤ m → m ≤ e → InGap m ss es))
      ⊎ ((gap_at ss es k ≡ (false, 0)) × (¬ InGap k ss es))
unfolding gap_at
gap_at_cases k b [] es g = inr (refl, λ h. h)
gap_at_cases k b (s ∷ ss) [] g = elim g [ ]
gap_at_cases k b (s ∷ ss) (e ∷ es) g = elim (Bool-cases (ltb k s)) [
  | inl before ↦ inr (rw before, λ h. absurd (ground (arith, InGap-first k b s e ss es g h)))
  | inr started ↦ elim (Bool-cases (leb k e)) [
    | inl in_range ↦
        inl (e, rw (started, in_range), ground arith, λ m lo hi. inl (ground arith, hi))
    | inr past ↦ elim (gap_at_cases k e ss es g.2) [
      | inl (f, found, le, all) ↦
          inl (f, rw (started, past) found, le, λ m lo hi. inr (all m lo hi))
      | inr (none_found, out) ↦ inr (
        rw (started, past) none_found,
        λ h. elim h [ inl h ↦ absurd (ground arith) | inr h ↦ out h ],
      )
    ]
  ]
]

-- The lookup of a gap range never panics. It finds the range that holds the number, whose end is in
-- it, or answers that there is none.
pub is_seqno_gap_seqno_cases :
    (k b : ℕ) (ss es : List ℕ)
    → GapsAbove b ss es
    → ((e : ℕ) × (is_seqno_gap_seqno ss es k ≡ done (true, e))
        × (k ≤ e)
        × ((m : ℕ) → k ≤ m → m ≤ e → InGap m ss es))
      ⊎ ((is_seqno_gap_seqno ss es k ≡ done (false, 0)) × (¬ InGap k ss es))
is_seqno_gap_seqno_cases k b ss es g =
    rw (is_seqno_gap_seqno-gap_at k b ss es g) (elim (gap_at_cases k b ss es g) [
      | inl (e, found, le, all) ↦ inl (e, ap done found, le, all)
      | inr (none_found, out) ↦ inr (ap done none_found, out)
    ])
