-- ===== src/Xmem/Buffer/Slots.antt =====
-- The requestBuffer's free positions, tokens and counts agree with its slots.
use goxdcr.Prelude.{
  ℕ, zero, suc, ◌+◌, ◌^◌, ◌≤◌, ◌<◌, ◌≡◌, refl, sym, ap, subst, inl, inr, false, none, some, List,
  [], ◌∷◌, ◌++◌, arith, ◌==◌, Bool-cases, length, In, In-append, set_at, set_at_same, set_at_other,
}
use goxdcr.Requests.{McRequest}
use goxdcr.Xmem.Buffer.{
  BufferedMcRequest, empty_request, RequestBuffer, count_from, new_req_buffer, get_opaque,
}

abbrev pub full : BufferedMcRequest → ℕ
full b = elim b.req [ none ↦ 0 | some r ↦ 1 ]

-- How many of the first n slots hold a request.
unfoldable pub count_full : ℕ → (ℕ → BufferedMcRequest) → ℕ
count_full zero s = 0
count_full (suc n) s = full (s n) + count_full n s

abbrev pub Distinct : List ℕ → Type 0
Distinct [] = Unit
Distinct (x ∷ xs) = (¬ In x xs) × Distinct xs

pub record IsConsistent (buf : RequestBuffer) : Type 0 where
  pub counts : buf.occupied_count ≡ count_full buf.size buf.slots
  pub rest_is_free : buf.occupied_count + length buf.empty_slots_pos ≡ buf.size
  pub tokens : buf.token_ch ≡ buf.occupied_count
  pub room : buf.size ≤ buf.token_room
  pub small : buf.size < 2 ^ 16
  pub distinct : Distinct buf.empty_slots_pos
  pub in_range : (i : ℕ) → In i buf.empty_slots_pos → i < buf.size
  pub free_is_empty : (i : ℕ) → In i buf.empty_slots_pos → buf.slots i ≡ empty_request
  pub empty_is_free : (i : ℕ) → i < buf.size → (buf.slots i).req ≡ none → In i buf.empty_slots_pos
  pub own_opaque :
      (i : ℕ) (r : McRequest)
      → (buf.slots i).req ≡ some r
      → r.opaque ≡ get_opaque i (buf.sequences i)
  pub sequences_fit : (i : ℕ) → buf.sequences i < 2 ^ 16

count_full-set_above :
    (n k : ℕ) (a : BufferedMcRequest) (s : ℕ → BufferedMcRequest)
    → n ≤ k
    → count_full n (set_at k a s) ≡ count_full n s
unfolding count_full
count_full-set_above zero k a s h = refl
count_full-set_above (suc n) k a s h =
    let e : (n == k) ≡ false = ground arith in
    let i = count_full-set_above n k a s (omega arith) in rw (set_at_other k n a s e, i) refl

pub count_full-set_at :
    (n k : ℕ) (a : BufferedMcRequest) (s : ℕ → BufferedMcRequest)
    → k < n
    → count_full n (set_at k a s) + full (s k) ≡ count_full n s + full a
unfolding count_full
count_full-set_at zero k a s h = absurd (omega arith)
count_full-set_at (suc n) k a s h = elim (Bool-cases (n == k)) [
  | inl e ↦
      let q : n ≡ k = ground arith in
      let i = count_full-set_above n k a s (omega arith) in
      let w : set_at k a s n ≡ a = subst (λ x. set_at k a s x ≡ a) (sym q) (set_at_same k a s) in
      rw (w, i, ap s q) (omega arith)
  | inr e ↦
      let i = count_full-set_at n k a s (ground arith) in rw (set_at_other k n a s e) (omega arith)
]

In-count_from : (i k n : ℕ) → In i (count_from k n) → (k ≤ i) × (i < k + n)
In-count_from i k zero h = elim h [ ]
In-count_from i k (suc n) (inl e) = (omega arith, omega arith)
In-count_from i k (suc n) (inr h) =
    let r = In-count_from i (suc k) n h in (omega arith, omega arith)

count_from-In : (i k n : ℕ) → k ≤ i → i < k + n → In i (count_from k n)
count_from-In i k zero h l = absurd (omega arith)
count_from-In i k (suc n) h l = elim (Bool-cases (i == k)) [
  | inl e ↦ inl (ground arith)
  | inr e ↦ inr (count_from-In i (suc k) n (ground arith) (omega arith))
]

count_from-Distinct : (k n : ℕ) → Distinct (count_from k n)
count_from-Distinct k zero = tt
count_from-Distinct k (suc n) = (
  (λ h. let r = In-count_from k (suc k) n h in absurd (omega arith)),
  count_from-Distinct (suc k) n,
)

length-count_from : (k n : ℕ) → length (count_from k n) ≡ n
length-count_from k zero = refl
length-count_from k (suc n) = omega (arith, length-count_from (suc k) n)

count_full-none : (n : ℕ) → count_full n (λ i. empty_request) ≡ 0
unfolding count_full
count_full-none zero = refl
count_full-none (suc n) = omega (arith, count_full-none n)

pub new_req_buffer-IsConsistent :
    (size threshold token_room : ℕ)
    → size < 2 ^ 16
    → size ≤ token_room
    → IsConsistent (new_req_buffer size threshold token_room)
unfolding new_req_buffer
new_req_buffer-IsConsistent size threshold token_room h l = record {
  counts = sym (count_full-none size);
  rest_is_free = omega (arith, length-count_from 0 size);
  tokens = refl;
  room = l;
  small = h;
  distinct = count_from-Distinct 0 size;
  in_range = λ i m. let r = In-count_from i 0 size m in omega arith;
  free_is_empty = λ i m. refl;
  empty_is_free = λ i m e. count_from-In i 0 size (omega arith) (omega arith);
  own_opaque = λ i r e. ground arith;
  sequences_fit = λ i. omega arith;
}

pub Distinct-append : (x : ℕ) (xs : List ℕ) → (¬ In x xs) → Distinct xs → Distinct (xs ++ x ∷ [])
Distinct-append x [] h d = (λ m. elim m [ ], tt)
Distinct-append x (y ∷ ys) h d = (
  λ m. elim (In-append y ys (x ∷ []) m) [
    | inl l ↦ d.0 l
    | inr (inl e) ↦ h (inl (sym e))
    | inr (inr w) ↦ elim w [ ]
  ],
  Distinct-append x ys (λ m. h (inr m)) d.1,
)

pub full_below : (n k : ℕ) (s : ℕ → BufferedMcRequest) → k < n → full (s k) ≤ count_full n s
full_below n k s h = let e = count_full-set_at n k empty_request s h in omega arith
