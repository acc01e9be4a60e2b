-- ===== src/Router/Routes.antt =====
-- parts/router.go, route: which mutations are handed on, in which form and to which part.
use Prim.Native.Nat.{bit_and}
use goxdcr.Prelude.{
  ℕ, ◌+◌, ◌≡◌, refl, ap, ◌∙◌, ◌⊎◌, ◌↔◌, inl, inr, Bool, true, false, ◌&&◌, ◌||◌, Option, none, some,
  List, [], ◌∷◌, ◌++◌, arith, ltb, ◌==◌, if◌then◌else◌, Bool-cases, Outcome, done, ◌>>=◌,
}
use goxdcr.Requests.{CommandCode, upr_deletion, upr_expiration, McRequest}
use goxdcr.Xmem.Conflict.{ConflictResolutionMode}
use goxdcr.Router.{UprEvent, is_expiration, compose_mc_request}
use goxdcr.Router.Extras.{IsMutation, composed, compose_mc_request_lem}

pub data RouterEvent : Type 0 where
  data_filtered data_unable_to_filter expiry_field_stripped : RouterEvent

pub data RouterError : Type 0 where
  no_routing_map invalid_routing_map request_not_created : RouterError

-- What the filter says of a mutation: whether it matched and whether there was an error.
pub record FilterReply : Type 0 where
  pub matched : Bool
  pub has_error : Bool

-- The filter is a function, or none without a filter expression. A part is known by a number.
pub record XdcrRouter : Type 0 where
  pub filter : Option (UprEvent → FilterReply)
  pub routing_map : Option (ℕ → Option ℕ)
  pub source_cr_mode : ConflictResolutionMode
  pub exp_del_mode : ℕ

-- FilterExpDelStripExpiration, FilterExpDelSkipDeletes and FilterExpDelSkipExpiration in a mode.
abbrev pub is_strip_expiration_set : ℕ → Bool
is_strip_expiration_set mode = ltb 0 (bit_and mode 1)

abbrev pub is_skip_deletes_set : ℕ → Bool
is_skip_deletes_set mode = ltb 0 (bit_and mode 2)

abbrev pub is_skip_expiration_set : ℕ → Bool
is_skip_expiration_set mode = ltb 0 (bit_and mode 4)

abbrev is_deletion : CommandCode → Bool
is_deletion upr_deletion = true
is_deletion _ = false

-- `ProcessExpDelTTL`: whether the mutation goes on, and its form then with the events that are raised.
unfoldable pub process_exp_del_ttl : ℕ → UprEvent → Option (UprEvent × List RouterEvent)
process_exp_del_ttl mode event =
    if mode == 0
    then some (event, [])
    else if is_skip_deletes_set mode && is_deletion event.opcode
    then none
    else if is_skip_expiration_set mode && is_expiration event.opcode
    then none
    else if is_strip_expiration_set mode
    then some (record event { expiry = 0 }, expiry_field_stripped ∷ [])
    else some (event, [])

pub data RouteReply : Type 0 where
  routes_to : ℕ → McRequest → RouteReply
  drops : RouteReply
  fails : RouterError → RouteReply

-- The request for a mutation that is not filtered, made from the one that `newWrappedMCRequest` gives,
-- or none for its error.
unfoldable pub hand_on :
    XdcrRouter
    → ℕ
    → Option McRequest
    → UprEvent
    → List RouterEvent
    → Outcome (RouteReply × List RouterEvent)
hand_on router part none event raised = done (fails request_not_created, raised)
hand_on router part (some req) event raised =
    compose_mc_request router.source_cr_mode req event >>= λ mc_request.
    done (routes_to part mc_request, raised)

unfoldable pub filter_and_hand_on :
    XdcrRouter
    → ℕ
    → Option McRequest
    → UprEvent
    → List RouterEvent
    → Outcome (RouteReply × List RouterEvent)
filter_and_hand_on router part req event raised = elim router.filter [
  | none ↦ hand_on router part req event raised
  | some f ↦
      if (f event).has_error
      then done (drops, raised ++ data_unable_to_filter ∷ [])
      else if (f event).matched
      then hand_on router part req event raised
      else done (drops, raised ++ data_filtered ∷ [])
]

-- `route`, when the throttler has let it on: the reply and the events raised.
unfoldable pub route :
    XdcrRouter → Option McRequest → UprEvent → Outcome (RouteReply × List RouterEvent)
route router req event = elim router.routing_map [
  | none ↦ done (fails no_routing_map, [])
  | some parts ↦ elim (parts event.vbucket) [
    | none ↦ done (fails invalid_routing_map, [])
    | some part ↦ elim (process_exp_del_ttl router.exp_del_mode event) [
      | none ↦ done (drops, data_filtered ∷ [])
      | some p ↦ filter_and_hand_on router part req p.0 p.1
    ]
  ]
]

-- A mode as its three switches: strip expiry, skip deletions and skip expirations, 1, 2 and 4.
abbrev pub mode_of : Bool → Bool → Bool → ℕ
mode_of strip skip_del skip_exp =
    (if strip then 1 else 0) + (if skip_del then 2 else 0) + (if skip_exp then 4 else 0)

abbrev pub stripped : Bool → UprEvent → UprEvent
stripped strip event = if strip then record event { expiry = 0 } else event

abbrev pub IsSkipped : Bool → Bool → CommandCode → Type 0
IsSkipped skip_del skip_exp opcode =
    ((skip_del ≡ true) × (opcode ≡ upr_deletion)) ⊎ ((skip_exp ≡ true) × (opcode ≡ upr_expiration))

abbrev pub PassesFilter : Option (UprEvent → FilterReply) → UprEvent → Type 0
PassesFilter none event = Unit
PassesFilter (some f) event = ((f event).has_error ≡ false) × ((f event).matched ≡ true)

abbrev is_skipped : Bool → Bool → CommandCode → Bool
is_skipped skip_del skip_exp opcode =
    (skip_del && is_deletion opcode) || (skip_exp && is_expiration opcode)

abbrev pub stripped_events : Bool → List RouterEvent
stripped_events strip = if strip then expiry_field_stripped ∷ [] else []

process_lem :
    (strip skip_del skip_exp : Bool) (event : UprEvent)
    → process_exp_del_ttl (mode_of strip skip_del skip_exp) event ≡ (
        if is_skipped skip_del skip_exp event.opcode
        then none
        else some (stripped strip event, stripped_events strip))
unfolding process_exp_del_ttl
process_lem true true true event = ground arith
process_lem true true false event = ground arith
process_lem true false true event = ground arith
process_lem true false false event = ground arith
process_lem false true true event = ground arith
process_lem false true false event = ground arith
process_lem false false true event = ground arith
process_lem false false false event = ground arith

is_skipped_iff :
    (skip_del skip_exp : Bool) (opcode : CommandCode)
    → (is_skipped skip_del skip_exp opcode ≡ true) ↔ IsSkipped skip_del skip_exp opcode
is_skipped_iff skip_del skip_exp opcode = ground arith

filter_cases :
    (filter : Option (UprEvent → FilterReply)) (event : UprEvent)
    → PassesFilter filter event ⊎ (¬ PassesFilter filter event)
filter_cases none event = inl tt
filter_cases (some f) event = ground arith

passing {ℓ} :
    {A : Type ℓ} (filter : Option (UprEvent → FilterReply)) (event : UprEvent)
    (on unable dropped : A)
    → PassesFilter filter event
    → (elim filter [
      | none ↦ on
      | some f ↦ if (f event).has_error then unable else if (f event).matched then on else dropped
    ])
      ≡ on
passing none event on unable dropped p = refl
passing (some f) event on unable dropped p = rw (p.0, p.1) refl

stopped {ℓ} :
    {A : Type ℓ} (filter : Option (UprEvent → FilterReply)) (event : UprEvent)
    (on unable dropped : A)
    → (¬ PassesFilter filter event)
    → ((elim filter [
      | none ↦ on
      | some f ↦ if (f event).has_error then unable else if (f event).matched then on else dropped
    ])
        ≡ unable)
      ⊎ ((elim filter [
        | none ↦ on
        | some f ↦ if (f event).has_error then unable else if (f event).matched then on else dropped
      ])
          ≡ dropped)
stopped none event on unable dropped p = absurd (p tt)
stopped (some f) event on unable dropped p = elim (Bool-cases (f event).has_error) [
  | inl e ↦ inl (rw e refl)
  | inr e ↦ elim (Bool-cases (f event).matched) [
    | inl m ↦ absurd (p (e, m))
    | inr m ↦ inr (rw (e, m) refl)
  ]
]

handed_on :
    (router : XdcrRouter) (part : ℕ) (req : McRequest) (event : UprEvent)
    (raised : List RouterEvent)
    → IsMutation event.opcode
    → PassesFilter router.filter event
    → filter_and_hand_on router part (some req) event raised
      ≡ done (routes_to part (composed router.source_cr_mode event), raised)
unfolding filter_and_hand_on hand_on
handed_on router part req event raised h p =
    let c = compose_mc_request_lem router.source_cr_mode event req h in
    passing router.filter event (hand_on router part (some req) event raised)
      (done (drops, raised ++ data_unable_to_filter ∷ []))
      (done (drops, raised ++ data_filtered ∷ [])) p
    ∙ ap (λ o. o >>= λ mc_request. done (routes_to part mc_request, raised)) c

held_back :
    (router : XdcrRouter) (part : ℕ) (req : McRequest) (event : UprEvent)
    (raised : List RouterEvent)
    → (¬ PassesFilter router.filter event)
    → (more : List RouterEvent) × (filter_and_hand_on router part (some req) event raised
        ≡ done (drops, raised ++ more))
unfolding filter_and_hand_on
held_back router part req event raised p =
    elim (stopped router.filter event (hand_on router part (some req) event raised)
      (done (drops, raised ++ data_unable_to_filter ∷ []))
      (done (drops, raised ++ data_filtered ∷ [])) p) [
        | inl e ↦ (data_unable_to_filter ∷ [], e)
        | inr e ↦ (data_filtered ∷ [], e)
      ]

stripped-IsMutation :
    (strip : Bool) (event : UprEvent)
    → IsMutation event.opcode
    → IsMutation (stripped strip event).opcode
stripped-IsMutation true event h = h
stripped-IsMutation false event h = h

-- A mutation of a vbucket that the router serves is routed to that vbucket's part, as the request of the
-- mutation, with no expiry when expirations are to be stripped, exactly when its kind is not skipped and
-- the filter, which sees it in that form, matches it with no error; else it is dropped.
pub route_cases :
    (router : XdcrRouter) (parts : ℕ → Option ℕ) (part : ℕ) (strip skip_del skip_exp : Bool)
    (recycled : McRequest) (event : UprEvent)
    → router.routing_map ≡ some parts
    → parts event.vbucket ≡ some part
    → router.exp_del_mode ≡ mode_of strip skip_del skip_exp
    → IsMutation event.opcode
    → (IsSkipped skip_del skip_exp event.opcode
        × (route router (some recycled) event ≡ done (drops, data_filtered ∷ [])))
      ⊎ (((¬ IsSkipped skip_del skip_exp event.opcode)
            × PassesFilter router.filter (stripped strip event)
            × (route router (some recycled) event
                ≡ done (
                  routes_to part (composed router.source_cr_mode (stripped strip event)),
                  stripped_events strip,
                )))
          ⊎ ((¬ IsSkipped skip_del skip_exp event.opcode)
              × (¬ PassesFilter router.filter (stripped strip event))
              × (more : List RouterEvent) × (route router (some recycled) event
                  ≡ done (drops, stripped_events strip ++ more))))
unfolding route filter_and_hand_on
route_cases router parts part strip skip_del skip_exp recycled event rm vb em h =
    let e = process_lem strip skip_del skip_exp event in
    let k = is_skipped_iff skip_del skip_exp event.opcode in
    let on =
      filter_and_hand_on router part (some recycled) (stripped strip event)
        (stripped_events strip) in
    elim (Bool-cases (is_skipped skip_del skip_exp event.opcode)) [
      | inl s ↦ inl (k.0 s, rw (rm, vb, em, e, s) refl)
      | inr s ↦
          let n : ¬ IsSkipped skip_del skip_exp event.opcode = λ q. let w = k.1 q in ground arith in
          let r : route router (some recycled) event ≡ on = rw (rm, vb, em, e, s) refl in
          elim (filter_cases router.filter (stripped strip event)) [
            | inl p ↦ inr (
                inl (
                  n,
                  p,
                  r
                      ∙ handed_on router part recycled (stripped strip event)
                          (stripped_events strip) (stripped-IsMutation strip event h) p,
                ))
            | inr p ↦
                let (more, b) =
                  held_back router part recycled (stripped strip event) (stripped_events strip) p in
                inr (inr (n, p, more, r ∙ b))
          ]
    ]
