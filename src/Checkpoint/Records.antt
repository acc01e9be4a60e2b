-- ===== src/Checkpoint/Records.antt =====
-- The document keeps the newest records, newest first.
use goxdcr.Prelude.{
  ap, ℕ, zero, suc, ◌+◌, ◌-◌, ◌≤◌, ◌<◌, ◌≡◌, refl, sym, ◌∙◌, Bool, true, false, Option, none, some,
  List, [], ◌∷◌, ◌++◌, done, arith, ltb, if◌then◌else◌, length, get_elem?, take, replicate,
  Bool-cases, inl, inr, length-append, length-take, length-replicate,
}
use goxdcr.Checkpoint.{
  CheckpointRecord, CheckpointsDoc, is_same, set, move_up, resize, put_first, add_to, add_record,
}

abbrev Records : Type 0
Records = List (Option CheckpointRecord)

-- The rest of a list after its first i elements have moved up a place behind `x`.
behind : ℕ → Option CheckpointRecord → Records → Records
behind zero x xs = xs
behind (suc i) x [] = []
behind (suc i) x (y ∷ ys) = x ∷ behind i y ys

behind-set :
    (i : ℕ) (x : Option CheckpointRecord) (xs : Records) (v : Option CheckpointRecord)
    → i < length xs
    → get_elem? (x ∷ xs) i ≡ some v
    → behind i x (set xs i v) ≡ behind (suc i) x xs
unfolding behind
behind-set i x [] v h e = absurd (omega arith)
behind-set zero x (y ∷ ys) v h e = cc
behind-set (suc i) x (y ∷ ys) v h e = ap (◌∷◌ x) (behind-set i y ys v (omega arith) e)

elem_in_range :
    (xs : Records) (i : ℕ)
    → i < length xs
    → (v : Option CheckpointRecord) × (get_elem? xs i ≡ some v)
elem_in_range [] i h = absurd (omega arith)
elem_in_range (x ∷ xs) zero h = (x, refl)
elem_in_range (x ∷ xs) (suc i) h = elem_in_range xs i (omega arith)

length-set : (xs : Records) (i : ℕ) (v : Option CheckpointRecord) → length (set xs i v) ≡ length xs
length-set [] i v = refl
length-set (x ∷ xs) zero v = refl
length-set (x ∷ xs) (suc i) v = ap suc (length-set xs i v)

move_up-eq :
    (i : ℕ) (x : Option CheckpointRecord) (xs : Records)
    → i ≤ length xs
    → move_up i (x ∷ xs) ≡ done (x ∷ behind i x xs)
unfolding move_up
move_up-eq zero x xs h = unfold behind in refl
move_up-eq (suc i) x xs h =
    let (v, e) = elem_in_range (x ∷ xs) i (omega arith) in
    rw e (
      move_up-eq i x (set xs i v) (omega (arith, length-set xs i v))
      ∙ ap (λ ys. done (x ∷ ys)) (behind-set i x xs v (omega arith) e))

behind_all :
    (k : ℕ) (x : Option CheckpointRecord) (xs : Records)
    → length xs ≡ k
    → behind k x xs ≡ take k (x ∷ xs)
unfolding behind
behind_all zero x xs e = none_left xs e
  where
    none_left : (ys : Records) → length ys ≡ 0 → ys ≡ []
    none_left [] e = refl
    none_left (y ∷ ys) e = absurd (omega arith)
behind_all (suc k) x [] e = absurd (omega arith)
behind_all (suc k) x (y ∷ ys) e = ap (◌∷◌ x) (behind_all k y ys (omega arith))

take_append : (n : ℕ) (xs ys : Records) → n ≤ length xs → take n (xs ++ ys) ≡ take n xs
take_append zero xs ys h = refl
take_append (suc n) [] ys h = absurd (omega arith)
take_append (suc n) (x ∷ xs) ys h = ap (◌∷◌ x) (take_append n xs ys (omega arith))

take_padded :
    (n m : ℕ) (xs : Records)
    → length xs ≤ n
    → n ≤ length xs + m
    → take n (xs ++ replicate m none) ≡ xs ++ replicate (n - length xs) none
take_padded zero m [] h k = refl
take_padded (suc n) zero [] h k = absurd (omega arith)
take_padded (suc n) (suc m) [] h k =
    let p : suc n - 0 ≡ suc n = omega arith in
    let q : n - 0 ≡ n = omega arith in
    rw p (ap (◌∷◌ none) (take_padded n m [] (omega arith) (omega arith) ∙ rw q))
take_padded zero m (x ∷ xs) h k = absurd (omega arith)
take_padded (suc n) m (x ∷ xs) h k =
    let p : suc n - suc (length xs) ≡ n - length xs = omega arith in
    rw p (ap (◌∷◌ x) (take_padded n m xs (omega arith) (omega arith)))

-- The first records of a list that goes on with nil records for ever.
abbrev pub padded : ℕ → Records → Records
padded n records = take n (records ++ replicate n none)

resize-padded : (n : ℕ) (xs : Records) → resize n xs ≡ padded n xs
unfolding resize
resize-padded n xs = elim (Bool-cases (ltb n (length xs))) [
  | inl over ↦ rw over (sym (take_append n xs (replicate n none) (ground arith)))
  | inr fits ↦ elim (Bool-cases (ltb (length xs) n)) [
    | inl under ↦ rw (fits, under) (sym (take_padded n n xs (ground arith) (omega arith)))
    | inr full ↦
        let e : n ≡ length xs = ground arith in
        rw (fits, full) (sym (take_append n xs (replicate n none) (omega arith) ∙ take_all n xs e))
  ]
]
  where
    take_all : (m : ℕ) (ys : Records) → m ≡ length ys → take m ys ≡ ys
    take_all m [] e = rw e
    take_all zero (y ∷ ys) e = absurd (omega arith)
    take_all (suc m) (y ∷ ys) e = ap (◌∷◌ y) (take_all m ys (omega arith))

take-take : (k n : ℕ) (xs : Records) → k ≤ n → take k (take n xs) ≡ take k xs
take-take zero n xs h = refl
take-take (suc k) zero xs h = absurd (omega arith)
take-take (suc k) (suc n) [] h = refl
take-take (suc k) (suc n) (x ∷ xs) h = ap (◌∷◌ x) (take-take k n xs (omega arith))

length-padded : (n : ℕ) (xs : Records) → length (padded n xs) ≡ n
length-padded n xs = omega (
  arith,
  length-take n (xs ++ replicate n none),
  length-append xs (replicate n none),
  length-replicate {A = Option CheckpointRecord} n none,
)

put_first-eq :
    (k : ℕ) (r : Option CheckpointRecord) (xs : Records)
    → length xs ≡ suc k
    → put_first (suc k) r xs ≡ done (r ∷ take k xs)
unfolding put_first
put_first-eq k r [] e = absurd (omega arith)
put_first-eq k r (x ∷ xs) e =
    let p : suc (length xs) - 1 ≡ k = omega arith in
    rw (p, move_up-eq k x xs (omega arith))
      (ap (λ ys. done (r ∷ ys)) (behind_all k x xs (omega arith)))

add_to-eq :
    (k : ℕ) (r newest : Option CheckpointRecord) (older : Records) (same : Bool)
    → is_same newest r ≡ done same
    → add_to (suc k) r (newest ∷ older) ≡ (
        if same
        then done (false, newest ∷ older)
        else done (true, padded (suc k) (r ∷ newest ∷ older)))
unfolding add_to
add_to-eq k r newest older true e = rw e
add_to-eq k r newest older false e =
    let records = newest ∷ older in
    let n = length-padded (suc k) records in
    rw (
      e,
      resize-padded (suc k) records,
      put_first-eq k r (padded (suc k) records) n,
      take-take k (suc k) (records ++ replicate (suc k) none) (omega arith),
    )

-- With at least one record to keep, and a document that holds some, whose newest can be compared: a
-- record that is the same as the newest one is not added and the document stays; any other is put in
-- front of the old ones, and the document then holds exactly the newest records to keep, newest first,
-- filled up with nil records.
pub add_record_lem :
    (k : ℕ) (r newest : Option CheckpointRecord) (older : Records) (doc : CheckpointsDoc)
    (same : Bool)
    → doc.checkpoint_records ≡ newest ∷ older
    → is_same newest r ≡ done same
    → add_record (suc k) r doc
      ≡ done (
          if same
          then (false, doc)
          else (true, record doc { checkpoint_records = padded (suc k) (r ∷ newest ∷ older) }))
unfolding add_record
add_record_lem k r newest older doc true e s = rw (e, add_to-eq k r newest older true s)
add_record_lem k r newest older doc false e s = rw (e, add_to-eq k r newest older false s)
