-- ===== src/Router/Extras.antt =====
-- ComposeMCRequest writes all of a mutation's metadata, and decodeSetMetaReq reads it back.
use goxdcr.Prelude.{
  ℕ, ◌+◌, ◌≤◌, ◌≡◌, refl, ap, ◌∙◌, Bool, true, false, ◌||◌, List, [], ◌∷◌, ◌++◌, arith, ltb, ◌==◌,
  if◌then◌else◌, Bool-cases, length, drop, Outcome, done, ◌>>=◌, length-append, length-drop,
  length-replicate, ◌⊎◌, inl, inr,
}
use goxdcr.Requests.{
  CommandCode, upr_mutation, upr_deletion, upr_expiration, upr_snapshot, McRequest,
}
use goxdcr.Requests.Bytes.{slice, put_bytes, put_bytes_next, be_uint32, be_uint64}
use goxdcr.Xmem.Conflict.{ConflictResolutionMode, cr_mode_lww, cr_mode_rev_id}
use goxdcr.Router.{
  UprEvent, sized, is_lww, is_expiration, options_of, put_metadata, mutation_extras,
  snapshot_extras, extras_for, compose_mc_request,
}

length-sized : (size : ℕ) (extras : List ℕ) → length (sized size extras) ≡ size
unfolding sized
length-sized size extras = elim (Bool-cases (length extras == size)) [
  | inl e ↦ rw e (ground arith)
  | inr e ↦ rw e (length-replicate size 0)
]

append_nil : (xs : List ℕ) → xs ++ [] ≡ xs
append_nil [] = refl
append_nil (x ∷ xs) = ap (λ l. x ∷ l) (append_nil xs)

empty_list : (xs : List ℕ) → length xs ≡ 0 → xs ≡ []
empty_list [] h = refl
empty_list (x ∷ xs) h = absurd (omega arith)

four_writes :
    (a b c d xs : List ℕ)
    → length a ≡ 4
    → length b ≡ 4
    → length c ≡ 8
    → length d ≡ 8
    → 24 ≤ length xs
    → (rest : List ℕ) × (length rest + 24 ≡ length xs)
      × ((put_bytes 0 a xs >>= λ p.
            put_bytes 4 b p >>= λ q. put_bytes 8 c q >>= λ r. put_bytes 16 d r)
          ≡ done (a ++ b ++ c ++ d ++ rest))
four_writes a b c d xs ha hb hc hd l =
    let r1 = drop (length a) xs in
    let r2 = drop (length b) r1 in
    let r3 = drop (length c) r2 in
    let r4 = drop (length d) r3 in
    let l1 = length-drop (length a) xs in
    let l2 = length-drop (length b) r1 in
    let l3 = length-drop (length c) r2 in
    let l4 = length-drop (length d) r3 in
    let e1 = put_bytes_next 0 [] a xs refl (omega arith) in
    let e2 = put_bytes_next 4 a b r1 ha (omega arith) in
    let e3 = put_bytes_next 8 (a ++ b) c r2 (omega (arith, length-append a b)) (omega arith) in
    let e4 =
      put_bytes_next 16 (a ++ b ++ c) d r3
        (omega (arith, length-append a b, length-append (a ++ b) c)) (omega arith) in
    (r4, omega arith, rw (e1, e2, e3, e4) refl)

-- The extras that a mutation's request has: <<Flg:32, Exp:32, SeqNo:64, CASPart:64>>, and the options
-- when there are any.
abbrev pub expected_extras : ConflictResolutionMode → UprEvent → List ℕ
expected_extras mode event =
    be_uint32 event.flags
    ++ be_uint32 event.expiry
    ++ be_uint64 event.rev_seqno
    ++ be_uint64 event.cas
    ++ (if is_lww mode || is_expiration event.opcode
        then be_uint32 (options_of mode event.opcode)
        else [])

abbrev pub IsMutation : CommandCode → Type 0
IsMutation opcode = (opcode ≡ upr_mutation) ⊎ ((opcode ≡ upr_deletion) ⊎ (opcode ≡ upr_expiration))

options_given :
    (mode : ConflictResolutionMode) (opcode : CommandCode)
    → ltb 0 (options_of mode opcode) ≡ (is_lww mode || is_expiration opcode)
options_given cr_mode_lww opcode = elim (Bool-cases (is_expiration opcode)) [
  | inl e ↦ rw e refl
  | inr e ↦ rw e refl
]
options_given cr_mode_rev_id opcode = elim (Bool-cases (is_expiration opcode)) [
  | inl e ↦ rw e refl
  | inr e ↦ rw e refl
]

tail_write :
    (optional : Bool) (head rest options : List ℕ)
    → length head ≡ 24
    → length options ≡ 4
    → length rest ≡ (if optional then 4 else 0)
    → (if optional then put_bytes 24 options (head ++ rest) else done (head ++ rest))
      ≡ done (head ++ (if optional then options else []))
tail_write true head rest options h o l =
    let w = put_bytes_next 24 head options rest h (omega arith) in
    let z =
      empty_list (drop (length options) rest) (omega (arith, length-drop (length options) rest)) in
    w ∙ ap (λ t. done (head ++ options ++ t)) z ∙ ap (λ t. done t) (append_nil (head ++ options))
tail_write false head rest options h o l = ap (λ t. done (head ++ t)) (empty_list rest l)

mutation_extras_lem :
    (mode : ConflictResolutionMode) (event : UprEvent) (extras : List ℕ)
    → mutation_extras mode event extras ≡ done (expected_extras mode event)
unfolding mutation_extras put_metadata
mutation_extras_lem mode event extras =
    let optional = is_lww mode || is_expiration event.opcode in
    let options = options_of mode event.opcode in
    let xs = sized (if optional then 28 else 24) extras in
    let lx = length-sized (if optional then 28 else 24) extras in
    let head =
      be_uint32 event.flags
      ++ be_uint32 event.expiry
      ++ be_uint64 event.rev_seqno
      ++ be_uint64 event.cas in
    let (rest, l, e) =
      four_writes (be_uint32 event.flags) (be_uint32 event.expiry) (be_uint64 event.rev_seqno)
        (be_uint64 event.cas) xs refl refl refl refl (rest_length optional (length xs) lx) in
    let t =
      tail_write optional head rest (be_uint32 options) refl refl
        (tail_length optional (length rest) (l ∙ lx)) in
    ap (λ o. o >>= λ w. if ltb 0 options then put_bytes 24 (be_uint32 options) w else done w) e
    ∙ ap (λ b. if b then put_bytes 24 (be_uint32 options) (head ++ rest) else done (head ++ rest))
        (options_given mode event.opcode)
    ∙ t
  where
    rest_length : (b : Bool) (n : ℕ) → n ≡ (if b then 28 else 24) → 24 ≤ n
    rest_length true n h = omega arith
    rest_length false n h = omega arith

    tail_length : (b : Bool) (n : ℕ) → n + 24 ≡ (if b then 28 else 24) → n ≡ (if b then 4 else 0)
    tail_length true n h = omega arith
    tail_length false n h = omega arith

pub slice_flags :
    (mode : ConflictResolutionMode) (event : UprEvent)
    → slice (expected_extras mode event) 0 4 ≡ done (be_uint32 event.flags)
slice_flags mode event = elim (Bool-cases (is_lww mode || is_expiration event.opcode)) [
  | inl o ↦ rw o refl
  | inr o ↦ rw o refl
]

pub slice_expiry :
    (mode : ConflictResolutionMode) (event : UprEvent)
    → slice (expected_extras mode event) 4 4 ≡ done (be_uint32 event.expiry)
slice_expiry mode event = elim (Bool-cases (is_lww mode || is_expiration event.opcode)) [
  | inl o ↦ rw o refl
  | inr o ↦ rw o refl
]

pub slice_rev :
    (mode : ConflictResolutionMode) (event : UprEvent)
    → slice (expected_extras mode event) 8 8 ≡ done (be_uint64 event.rev_seqno)
slice_rev mode event = elim (Bool-cases (is_lww mode || is_expiration event.opcode)) [
  | inl o ↦ rw o refl
  | inr o ↦ rw o refl
]

-- The request of a mutation, whichever request it was made from.
abbrev pub composed : ConflictResolutionMode → UprEvent → McRequest
composed mode event = record {
  seqno = event.seqno;
  opcode = event.opcode;
  cas = event.cas;
  opaque = 0;
  vbucket = event.vbucket;
  key = event.key;
  extras = expected_extras mode event;
  body = event.value;
  data_type = event.data_type;
  unique_key = event.key ++ be_uint64 event.rev_seqno;
}

selects :
    (opcode : CommandCode) (mutation snapshot other : Outcome (List ℕ))
    → IsMutation opcode
    → (elim opcode [
      | upr_mutation ↦ mutation
      | upr_deletion ↦ mutation
      | upr_expiration ↦ mutation
      | upr_snapshot ↦ snapshot
      | _ ↦ other
    ])
      ≡ mutation
selects opcode mutation snapshot other (inl e) = rw e refl
selects opcode mutation snapshot other (inr (inl e)) = rw e refl
selects opcode mutation snapshot other (inr (inr e)) = rw e refl

extras_for_lem :
    (mode : ConflictResolutionMode) (event : UprEvent) (extras : List ℕ)
    → IsMutation event.opcode
    → extras_for mode event extras ≡ done (expected_extras mode event)
unfolding extras_for
extras_for_lem mode event extras h =
    selects event.opcode (mutation_extras mode event extras) (snapshot_extras event extras)
      (done extras) h
    ∙ mutation_extras_lem mode event extras

-- A mutation, deletion or expiration becomes a request with its own metadata in the extras and its key
-- and revision as the unique key, and nothing of the request that is used again for it is left.
pub compose_mc_request_lem :
    (mode : ConflictResolutionMode) (event : UprEvent) (recycled : McRequest)
    → IsMutation event.opcode
    → compose_mc_request mode recycled event ≡ done (composed mode event)
unfolding compose_mc_request
compose_mc_request_lem mode event recycled h =
    let e = extras_for_lem mode event recycled.extras h in
    let s = slice_rev mode event in rw (e, s) refl
