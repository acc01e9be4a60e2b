-- ===== src/Xmem/GetMeta/Batches.antt =====
-- Each document of a batch is judged by the target's response for its own key.
use goxdcr.Prelude.{
  ℕ, ◌≡◌, refl, sym, ap, ◌∙◌, ◌↔◌, inl, inr, Bool, true, false, Option, none, some, List, [], ◌∷◌,
  arith, ◌==◌, if◌then◌else◌, Bool-cases, Option-cases, All, Outcome, done, panics, out_of_fuel,
  ◌>>=◌,
}
use goxdcr.Requests.{McRequest}
use goxdcr.Xmem.Conflict.{DocumentMetadata, ConflictResolutionMode, resolve_conflict}
use goxdcr.Xmem.GetMeta.{
  decode_set_meta_req, McResponse, is_success, is_topology_change_mc_error, decode_get_meta_resp,
  same_bytes, NoRepMap, lookup_key, classify, note, parse_responses, NeedSendStatus, send,
  not_send_failed_cr, not_send_other, need_send,
}

same_bytes_refl : (xs : List ℕ) → same_bytes xs xs ≡ true
same_bytes_refl [] = refl
same_bytes_refl (x ∷ xs) = let e : (x == x) ≡ true = ground arith in rw e (same_bytes_refl xs)

-- A unique key that none of the requests has.
abbrev pub IsFresh : List ℕ → List McRequest → Type 0
IsFresh key reqs = All (λ r. same_bytes key r.unique_key ≡ false) reqs

-- The requests' unique keys differ, as in a map.
abbrev pub IsRequestMap : List McRequest → Type 0
IsRequestMap [] = Unit
IsRequestMap (req ∷ rest) =
    IsFresh req.unique_key rest
    × All (λ r. same_bytes r.unique_key req.unique_key ≡ false) rest
    × IsRequestMap rest

abbrev pub verdict_of : Option Bool → NeedSendStatus
verdict_of none = send
verdict_of (some failed_cr) = if failed_cr then not_send_failed_cr else not_send_other

lookup_note :
    (key k : List ℕ) (c : Option Bool) (m : NoRepMap)
    → same_bytes key k ≡ false
    → lookup_key key (note k c m) ≡ lookup_key key m
lookup_note key k none m h = refl
lookup_note key k (some b) m h = rw h refl

lookup_noted :
    (key : List ℕ) (c : Option Bool) (m : NoRepMap)
    → lookup_key key m ≡ none
    → lookup_key key (note key c m) ≡ c
lookup_noted key none m h = h
lookup_noted key (some b) m h = rw (same_bytes_refl key) refl

bind_done {ℓ κ} :
    {A : Type ℓ} {B : Type κ} (o : Outcome A) (f : A → Outcome B) (b : B)
    → (o >>= f) ≡ done b
    → (a : A) × (o ≡ done a) × (f a ≡ done b)
bind_done (done a) f b h = (a, refl, h)
bind_done panics f b h = ground arith
bind_done out_of_fuel f b h = ground arith

verdict_elim :
    (o : Option Bool)
    → (elim o [
      | none ↦ send
      | some failed_cr ↦ if failed_cr then not_send_failed_cr else not_send_other
    ])
      ≡ verdict_of o
verdict_elim none = refl
verdict_elim (some b) = refl

still_absent :
    (k : List ℕ) (c : Option Bool) (m : NoRepMap) (reqs : List McRequest)
    → All (λ r. same_bytes r.unique_key k ≡ false) reqs
    → All (λ r. lookup_key r.unique_key m ≡ none) reqs
    → All (λ r. lookup_key r.unique_key (note k c m) ≡ none) reqs
still_absent k c m [] h z = tt
still_absent k c m (r ∷ rest) h z =
    (lookup_note r.unique_key k c m h.0 ∙ z.0, still_absent k c m rest h.1 z.1)

abbrev empty_map : NoRepMap
empty_map = []

none_in_empty : (reqs : List McRequest) → All (λ r. lookup_key r.unique_key empty_map ≡ none) reqs
none_in_empty [] = tt
none_in_empty (r ∷ rest) = (refl, none_in_empty rest)

abbrev outcome : Option Bool → Outcome (Option Bool)
outcome c = done c

not_lost : ¬ (outcome none ≡ done (some true))
not_lost h = ground arith

not_rejected : ¬ (outcome (some false) ≡ done (some true))
not_rejected h = ground arith

done_injective : {a b : Option Bool} → done a ≡ done b → a ≡ b
done_injective {a} h = ap (λ o. elim o [ done x ↦ x | _ ↦ a ]) h

failed_verdict : (c : Option Bool) → verdict_of c ≡ not_send_failed_cr → c ≡ some true
failed_verdict none h = ground arith
failed_verdict (some true) h = refl
failed_verdict (some false) h = ground arith

module _ (mode : ConflictResolutionMode) (xattr_enabled : Bool)
    (responses : List (List ℕ × McResponse)) where
  abbrev class : McRequest → Outcome (Option Bool)
  class req = classify mode xattr_enabled req (lookup_key req.key responses)

  parsed_other :
      (reqs : List McRequest) (m result : NoRepMap) (key : List ℕ)
      → parse_responses mode xattr_enabled responses reqs m ≡ done result
      → IsFresh key reqs
      → lookup_key key result ≡ lookup_key key m
  unfolding parse_responses
  parsed_other [] m result key h f =
      ap (λ o. elim o [ done x ↦ lookup_key key x | _ ↦ none ]) (sym h)
  parsed_other (req ∷ rest) m result key h f =
      let (c, e, g) = bind_done (class req) _ result h in
      parsed_other rest (note req.unique_key c m) result key g f.1
      ∙ lookup_note key req.unique_key c m f.0

  parsed_each :
      (reqs : List McRequest) (m result : NoRepMap)
      → parse_responses mode xattr_enabled responses reqs m ≡ done result
      → IsRequestMap reqs
      → All (λ r. lookup_key r.unique_key m ≡ none) reqs
      → All (λ r. (c : Option Bool) × (class r ≡ done c) × (need_send r result ≡ verdict_of c)) reqs
  unfolding parse_responses need_send
  parsed_each [] m result h k z = tt
  parsed_each (req ∷ rest) m result h k z =
      let (c, e, g) = bind_done (class req) _ result h in
      let l =
        parsed_other rest (note req.unique_key c m) result req.unique_key g k.0
        ∙ lookup_noted req.unique_key c m z.0 in
      (
        (c, e, verdict_elim (lookup_key req.unique_key result) ∙ ap (λ o. verdict_of o) l),
        parsed_each rest (note req.unique_key c m) result g k.2
            (still_absent req.unique_key c m rest k.1 z.1),
      )

  -- The target has a version of the request's document that the request's version does not win over.
  abbrev pub Loses : McRequest → Type 0
  Loses req =
      (resp : McResponse) × (target : DocumentMetadata) × (source : DocumentMetadata) × (lookup_key
          req.key responses
        ≡ some resp)
      × (is_success resp.status ≡ true)
      × (decode_get_meta_resp xattr_enabled resp ≡ done (some target))
      × (decode_set_meta_req req ≡ done source)
      × (resolve_conflict source target mode xattr_enabled ≡ false)

  class_of_loser : (req : McRequest) → Loses req → class req ≡ done (some true)
  unfolding classify
  class_of_loser req (resp, t, s, l, u, d, e, r) = rw (l, u, d, e, r) refl

  resolved-Loses :
      (req : McRequest) (resp : McResponse) (target : Option DocumentMetadata)
      → lookup_key req.key responses ≡ some resp
      → is_success resp.status ≡ true
      → decode_get_meta_resp xattr_enabled resp ≡ done target
      → (elim target [
        | none ↦ done none
        | some t ↦ decode_set_meta_req req >>= λ s.
            done (if resolve_conflict s t mode xattr_enabled then none else some true)
      ])
        ≡ done (some true)
      → Loses req
  resolved-Loses req resp none l u d g = absurd (not_lost g)
  resolved-Loses req resp (some t) l u d g =
      let (s, e, k) = bind_done (decode_set_meta_req req) _ (some true) g in
      elim (Bool-cases (resolve_conflict s t mode xattr_enabled)) [
        | inl r ↦ absurd (not_lost (sym (ap (λ b. done (if b then none else some true)) r) ∙ k))
        | inr r ↦ (resp, t, s, l, u, d, e, r)
      ]

  class-Loses : (req : McRequest) → class req ≡ done (some true) → Loses req
  unfolding classify
  class-Loses req h = elim (Option-cases (lookup_key req.key responses)) [
    | inl n ↦ let f : class req ≡ done none = rw n refl in absurd (not_lost (sym f ∙ h))
    | inr (resp, l) ↦ elim (Bool-cases (is_success resp.status)) [
      | inl u ↦
          let f : class req ≡ (
              decode_get_meta_resp xattr_enabled resp >>= λ target. elim target [
                | none ↦ done none
                | some t ↦ decode_set_meta_req req >>= λ s.
                    done (if resolve_conflict s t mode xattr_enabled then none else some true)
              ]) =
            rw (l, u) refl in
          let (t, d, g) =
            bind_done (decode_get_meta_resp xattr_enabled resp) _ (some true) (sym f ∙ h) in
          resolved-Loses req resp t l u d g
      | inr u ↦ elim (Bool-cases (is_topology_change_mc_error resp.status)) [
        | inl w ↦
            let f : class req ≡ done (some false) = rw (l, u, w) refl in
            absurd (not_rejected (sym f ∙ h))
        | inr w ↦ let f : class req ≡ done none = rw (l, u, w) refl in absurd (not_lost (sym f ∙ h))
      ]
    ]
  ]

  each_verdict :
      (result : NoRepMap) (reqs : List McRequest)
      → All (λ r. (c : Option Bool) × (class r ≡ done c) × (need_send r result ≡ verdict_of c)) reqs
      → All (λ r. (need_send r result ≡ not_send_failed_cr) ↔ Loses r) reqs
  each_verdict result [] h = tt
  each_verdict result (r ∷ rest) h =
      let (c, e, n) = h.0 in
      (
        (
          λ k. class-Loses r (e ∙ ap (λ x. done x) (failed_verdict c (sym n ∙ k))),
          λ k. n ∙ ap (λ x. verdict_of x) (done_injective (sym e ∙ class_of_loser r k)),
        ),
        each_verdict result rest h.1,
      )

  -- After a batch's responses are parsed, a document whose version was asked for is held back for failed
  -- conflict resolution exactly when the response for its key is a success, both versions decode, and
  -- its version does not win over the target's.
  pub parse_responses-Loses :
      (reqs : List McRequest) (result : NoRepMap)
      → IsRequestMap reqs
      → parse_responses mode xattr_enabled responses reqs [] ≡ done result
      → All (λ r. (need_send r result ≡ not_send_failed_cr) ↔ Loses r) reqs
  parse_responses-Loses reqs result k h =
      each_verdict result reqs (parsed_each reqs [] result h k (none_in_empty reqs))
