-- ===== src/ThroughSeqno/Dispatch/Routes.antt =====
-- An event of the pipeline is one of its own vbucket's events, and of no other's.
use goxdcr.Prelude.{
  ℕ, ◌≡◌, refl, sym, subst, ◌∙◌, inl, inr, true, false, Option, none, some, List, [], ◌∷◌, ◌++◌,
  Outcome, done, ◌>>=◌, arith, ◌==◌, if◌then◌else◌, All, Bool-cases,
}
use goxdcr.ThroughSeqno.Service.{
  VbTracker, VbEvent, sends, filters, fails_cr, receives, vb_step, vb_run,
}
use goxdcr.ThroughSeqno.Dispatch.{
  ThroughSeqnoTrackerSvc, UprEvent, Event, data_sent, data_filtered, data_unable_to_filter,
  data_failed_cr_source, data_received, other_event, set_vb, on_vb, mark_upr_event_as_filtered,
  process_event, process_events,
}

-- The vbucket's events that an event of the pipeline stands for.
abbrev pub filtered_events : ℕ → Option UprEvent → List VbEvent
filtered_events vb none = []
filtered_events vb (some u) = if u.v_bucket == vb then filters u.seqno ∷ [] else []

abbrev pub vb_events : ℕ → Event → List VbEvent
vb_events vb (data_sent vbno seqno) = if vbno == vb then sends seqno ∷ [] else []
vb_events vb (data_filtered u) = filtered_events vb u
vb_events vb (data_unable_to_filter recoverable u) =
    if recoverable then [] else filtered_events vb u
vb_events vb (data_failed_cr_source vbno seqno) = if vbno == vb then fails_cr seqno ∷ [] else []
vb_events vb (data_received u) = if u.v_bucket == vb then receives u.seqno ∷ [] else []
vb_events vb other_event = []

-- The service has the vbucket of the event.
abbrev HasVb : ThroughSeqnoTrackerSvc → ℕ → Type 0
HasVb s vb = (t : VbTracker) × (s.vb_map vb ≡ some t)

abbrev HasUpr : ThroughSeqnoTrackerSvc → Option UprEvent → Type 0
HasUpr s none = Unit {0}
HasUpr s (some u) = HasVb s u.v_bucket

abbrev pub IsKnown : ThroughSeqnoTrackerSvc → Event → Type 0
IsKnown s (data_sent vbno seqno) = HasVb s vbno
IsKnown s (data_filtered u) = HasUpr s u
IsKnown s (data_unable_to_filter recoverable u) = HasUpr s u
IsKnown s (data_failed_cr_source vbno seqno) = HasVb s vbno
IsKnown s (data_received u) = HasVb s u.v_bucket
IsKnown s other_event = Unit {0}

-- The service did these events to each of its vbuckets, and has the same vbuckets.
pub record Does (s : ThroughSeqnoTrackerSvc) (events : ℕ → List VbEvent)
    (result : Outcome ThroughSeqnoTrackerSvc) : Type 0 where
  pub next : ThroughSeqnoTrackerSvc
  pub ends : result ≡ done next
  pub each :
      (vb : ℕ) (t : VbTracker)
      → s.vb_map vb ≡ some t
      → (t' : VbTracker) × (vb_run (events vb) t ≡ done t') × (next.vb_map vb ≡ some t')

Does-nothing : (s : ThroughSeqnoTrackerSvc) → Does s (λ vb. []) (done s)
unfolding vb_run
Does-nothing s = record { next = s; ends = refl; each = λ vb t e. (t, refl, e) }

some_injective : {t u : VbTracker} → ◌≡◌ {A = Option VbTracker} (some t) (some u) → t ≡ u
some_injective e = cc

-- An event that the tracker always handles.
on_vb-Does :
    (s : ThroughSeqnoTrackerSvc) (vbno : ℕ) (e : VbEvent) (t next : VbTracker)
    → s.vb_map vbno ≡ some t
    → vb_step e t ≡ done next
    → Does s (λ vb. if vbno == vb then e ∷ [] else []) (on_vb vbno e s)
unfolding on_vb set_vb vb_run
on_vb-Does s vbno e t next h step = record {
  next = set_vb vbno next s;
  ends = rw (h, step) refl;
  each = λ vb u k. elim (Bool-cases (vbno == vb)) [
    | inl same ↦
        let eq : vbno ≡ vb = ground arith in
        let back : (vb == vbno) ≡ true = ground arith in
        let t_u : t ≡ u = some_injective (sym h ∙ subst (λ v. s.vb_map v ≡ some u) (sym eq) k) in
        (next, rw same (rw (subst (λ v. vb_step e v ≡ done next) t_u step) refl), rw back refl)
    | inr other ↦ let back : (vb == vbno) ≡ false = ground arith in (u, rw other refl, rw back k)
  ];
}

mark-Does :
    (s : ThroughSeqnoTrackerSvc) (u : Option UprEvent)
    → HasUpr s u
    → Does s (λ vb. filtered_events vb u) (mark_upr_event_as_filtered u s)
unfolding mark_upr_event_as_filtered vb_step
mark-Does s none k = Does-nothing s
mark-Does s (some u) (t, h) = on_vb-Does s u.v_bucket (filters u.seqno) t _ h refl

-- On an event whose vbucket the service has, ProcessEvent does not panic: it does the event to that
-- vbucket, and leaves all others; a mutation that failed to filter with a recoverable error, a nil
-- mutation and an event of another type do nothing.
pub process_event-Does :
    (e : Event) (s : ThroughSeqnoTrackerSvc)
    → IsKnown s e
    → Does s (λ vb. vb_events vb e) (process_event e s)
unfolding process_event vb_step
process_event-Does (data_sent vbno seqno) s (t, h) = on_vb-Does s vbno (sends seqno) t _ h refl
process_event-Does (data_filtered u) s k = mark-Does s u k
process_event-Does (data_unable_to_filter true u) s k = Does-nothing s
process_event-Does (data_unable_to_filter false u) s k = mark-Does s u k
process_event-Does (data_failed_cr_source vbno seqno) s (t, h) =
    on_vb-Does s vbno (fails_cr seqno) t _ h refl
process_event-Does (data_received u) s (t, h) =
    on_vb-Does s u.v_bucket (receives u.seqno) t _ h refl
process_event-Does other_event s k = Does-nothing s

abbrev pub all_events : ℕ → List Event → List VbEvent
all_events vb [] = []
all_events vb (e ∷ es) = vb_events vb e ++ all_events vb es

vb_run-append :
    (xs ys : List VbEvent) (t u : VbTracker)
    → vb_run xs t ≡ done u
    → vb_run (xs ++ ys) t ≡ vb_run ys u
unfolding vb_run
vb_run-append [] ys t u e = let same : t ≡ u = cc in rw same refl
vb_run-append (x ∷ xs) ys t u e = after (vb_step x t) (λ t'. vb_run-append xs ys t' u) e
  where
    after :
        (o : Outcome VbTracker)
        → ((t' : VbTracker) → vb_run xs t' ≡ done u → vb_run (xs ++ ys) t' ≡ vb_run ys u)
        → (o >>= vb_run xs) ≡ done u
        → (o >>= vb_run (xs ++ ys)) ≡ vb_run ys u
    after (done t') ih q = ih t' q
    after Outcome.panics ih q = cc
    after Outcome.out_of_fuel ih q = cc

HasUpr-keeps :
    (s : ThroughSeqnoTrackerSvc) (next : ThroughSeqnoTrackerSvc) (u : Option UprEvent)
    → ((vb : ℕ) → HasVb s vb → HasVb next vb)
    → HasUpr s u
    → HasUpr next u
HasUpr-keeps s next none k h = tt
HasUpr-keeps s next (some u) k h = k u.v_bucket h

IsKnown-keeps :
    (s next : ThroughSeqnoTrackerSvc) (e : Event)
    → ((vb : ℕ) → HasVb s vb → HasVb next vb)
    → IsKnown s e
    → IsKnown next e
IsKnown-keeps s next (data_sent vbno seqno) k h = k vbno h
IsKnown-keeps s next (data_filtered u) k h = HasUpr-keeps s next u k h
IsKnown-keeps s next (data_unable_to_filter recoverable u) k h = HasUpr-keeps s next u k h
IsKnown-keeps s next (data_failed_cr_source vbno seqno) k h = k vbno h
IsKnown-keeps s next (data_received u) k h = k u.v_bucket h
IsKnown-keeps s next other_event k h = tt

All-IsKnown :
    (s next : ThroughSeqnoTrackerSvc) (es : List Event)
    → ((vb : ℕ) → HasVb s vb → HasVb next vb)
    → All (IsKnown s) es
    → All (IsKnown next) es
All-IsKnown s next [] k a = tt
All-IsKnown s next (e ∷ es) k a = (IsKnown-keeps s next e k a.0, All-IsKnown s next es k a.1)

-- On any events whose vbuckets the service has, ProcessEvent never panics, and the service ends with
-- each vbucket in the state that the vbucket's own events, in their order, lead to: mutations sent,
-- filtered, failed or received; a mutation that failed to filter counts as filtered if the error is not
-- recoverable, and nil mutations and events of other types do nothing.
pub process_events-Does :
    (es : List Event) (s : ThroughSeqnoTrackerSvc)
    → All (IsKnown s) es
    → Does s (λ vb. all_events vb es) (process_events es s)
unfolding process_events
process_events-Does [] s a = Does-nothing s
process_events-Does (e ∷ es) s a =
    let first = process_event-Does e s a.0 in
    let keeps : (vb : ℕ) → HasVb s vb → HasVb first.next vb =
      λ vb h. (let (t', r, m) = first.each vb h.0 h.1 in (t', m)) in
    let later = process_events-Does es first.next (All-IsKnown s first.next es keeps a.1) in
    record {
      next = later.next;
      ends = rw first.ends later.ends;
      each = λ vb t h.
          (let (t', r, m) = first.each vb t h in
            let (u, q, n) = later.each vb t' m in
            (u, vb_run-append (vb_events vb e) (all_events vb es) t t' r ∙ q, n));
    }
