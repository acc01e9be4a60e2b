-- ===== src/Xmem/Buffer/Keeps.antt =====
-- A slot that is filled or freed leaves the requestBuffer consistent.
use goxdcr.Prelude.{
  ℕ, suc, ◌+◌, ◌%◌, ◌^◌, ◌<◌, ◌≡◌, refl, sym, ap, subst, ◌⊎◌, inl, inr, Bool, true, Option, none,
  some, List, [], ◌∷◌, ◌++◌, arith, leb, Bool-cases, Option-cases, length, length-append, In,
  In-append, In-append_left, In-append_right, set_at, set_at_other, set_at_elim,
}
use goxdcr.Requests.{McRequest}
use goxdcr.Xmem.Buffer.{
  BufferedMcRequest, empty_request, RequestBuffer, item_count_in_buffer, get_opaque, free_slot,
  fill_slot, notify, adjust_request,
}
use goxdcr.Xmem.Buffer.Slots.{IsConsistent, full, Distinct, Distinct-append, count_full-set_at}

-- The notify channel is no part of the buffer's consistency.
pub set_notifych-IsConsistent :
    (waiting : Option Bool) (buf : RequestBuffer)
    → IsConsistent buf
    → IsConsistent (record buf { notifych = waiting })
set_notifych-IsConsistent waiting buf c = record {
  counts = c.counts;
  rest_is_free = c.rest_is_free;
  tokens = c.tokens;
  room = c.room;
  small = c.small;
  distinct = c.distinct;
  in_range = c.in_range;
  free_is_empty = c.free_is_empty;
  empty_is_free = c.empty_is_free;
  own_opaque = c.own_opaque;
  sequences_fit = c.sequences_fit;
}

pub notify_cases :
    (buf : RequestBuffer) → (notify buf ≡ buf) ⊎ (notify buf ≡ record buf { notifych = some true })
unfolding notify
notify_cases buf = elim (Bool-cases (leb (item_count_in_buffer buf) buf.notify_threshold)) [
  | inl e ↦ elim (Option-cases buf.notifych) [
    | inl n ↦ inl (simp (e, n) refl)
    | inr (w, n) ↦ inr (simp (e, n) refl)
  ]
  | inr e ↦ inl (simp e refl)
]

pub notify-IsConsistent : (buf : RequestBuffer) → IsConsistent buf → IsConsistent (notify buf)
notify-IsConsistent buf c = elim (notify_cases buf) [
  | inl e ↦ rw e c
  | inr e ↦ rw e (set_notifych-IsConsistent (some true) buf c)
]

pub free_slot-IsConsistent :
    (pos : ℕ) (r : McRequest) (buf : RequestBuffer)
    → IsConsistent buf
    → pos < buf.size
    → (buf.slots pos).req ≡ some r
    → IsConsistent (free_slot pos buf)
unfolding free_slot
free_slot-IsConsistent pos r buf c l h =
    let f : full (buf.slots pos) ≡ 1 = rw h refl in
    let k = count_full-set_at buf.size pos empty_request buf.slots l in
    let len = length-append buf.empty_slots_pos (pos ∷ []) in
    record {
      counts = omega (arith, c.counts);
      rest_is_free = omega (arith, c.counts, c.rest_is_free);
      tokens = omega (arith, c.tokens);
      room = c.room;
      small = c.small;
      distinct =
          Distinct-append pos buf.empty_slots_pos
            (λ m. let e = ap (λ b. b.req) (c.free_is_empty pos m) in ground arith) c.distinct;
      in_range = λ i m. elim (In-append i buf.empty_slots_pos (pos ∷ []) m) [
        | inl w ↦ c.in_range i w
        | inr (inl e) ↦ rw e l
        | inr (inr w) ↦ elim w [ ]
      ];
      free_is_empty =
          set_at_elim (λ i b. In i (buf.empty_slots_pos ++ pos ∷ []) → b ≡ empty_request) pos
            empty_request buf.slots (λ m. refl)
            (λ i e m. elim (In-append i buf.empty_slots_pos (pos ∷ []) m) [
              | inl w ↦ c.free_is_empty i w
              | inr (inl q) ↦ ground arith
              | inr (inr w) ↦ elim w [ ]
            ]);
      empty_is_free =
          set_at_elim (λ i b. i < buf.size → b.req ≡ none → In i (buf.empty_slots_pos ++ pos ∷ []))
            pos empty_request buf.slots
            (λ lt e. In-append_right pos buf.empty_slots_pos (pos ∷ []) (inl refl))
            (λ i e lt n. In-append_left i buf.empty_slots_pos (pos ∷ []) (c.empty_is_free i lt n));
      own_opaque =
          set_at_elim
            (λ i b.
              (q : McRequest)
              → b.req ≡ some q
              → q.opaque
                ≡ get_opaque i (set_at pos ((buf.sequences pos + 1) % 2 ^ 16) buf.sequences i))
            pos empty_request buf.slots (λ q e. ground arith)
            (λ i e q s.
              rw (set_at_other pos i ((buf.sequences pos + 1) % 2 ^ 16) buf.sequences e)
                (c.own_opaque i q s));
      sequences_fit =
          set_at_elim (λ i n. n < 2 ^ 16) pos ((buf.sequences pos + 1) % 2 ^ 16) buf.sequences
            (omega arith) (λ i e. c.sequences_fit i);
    }

pub fill_slot-IsConsistent :
    (pos : ℕ) (free : List ℕ) (req : McRequest) (random now : ℕ) (buf : RequestBuffer)
    → IsConsistent buf
    → buf.empty_slots_pos ≡ pos ∷ free
    → IsConsistent (fill_slot pos free req random now buf)
unfolding fill_slot adjust_request
fill_slot-IsConsistent pos free req random now buf c h =
    let here : In pos buf.empty_slots_pos = rw h (inl refl) in
    let l = c.in_range pos here in
    let f : full (buf.slots pos) ≡ 0 = rw (c.free_is_empty pos here) refl in
    let new : BufferedMcRequest = record (buf.slots pos) {
      req = some (adjust_request req pos buf);
      sent_time = some now;
      reservation = some random;
    } in
    let k = count_full-set_at buf.size pos new buf.slots l in
    let len : length buf.empty_slots_pos ≡ suc (length free) = rw h refl in
    let d : Distinct (pos ∷ free) = subst (λ x. Distinct x) h c.distinct in
    let keep : (i : ℕ) → In i free → In i buf.empty_slots_pos = λ i m. rw h (inr m) in
    record {
      counts = omega (arith, c.counts);
      rest_is_free = omega (arith, c.rest_is_free);
      tokens = omega (arith, c.tokens);
      room = c.room;
      small = c.small;
      distinct = d.1;
      in_range = λ i m. c.in_range i (keep i m);
      free_is_empty =
          set_at_elim (λ i b. In i free → b ≡ empty_request) pos new buf.slots (λ m. absurd (d.0 m))
            (λ i e m. c.free_is_empty i (keep i m));
      empty_is_free =
          set_at_elim (λ i b. i < buf.size → b.req ≡ none → In i free) pos new buf.slots
            (λ lt e. ground arith)
            (λ i e lt n. elim (subst (λ x. In i x) h (c.empty_is_free i lt n)) [
              | inl w ↦ ground arith
              | inr w ↦ w
            ]);
      own_opaque =
          set_at_elim
            (λ i b. (q : McRequest) → b.req ≡ some q → q.opaque ≡ get_opaque i (buf.sequences i))
            pos new buf.slots (λ q e. ap (λ o. elim o [ none ↦ 0 | some r ↦ r.opaque ]) (sym e))
            (λ i e. c.own_opaque i);
      sequences_fit = c.sequences_fit;
    }
