-- ===== src/Xmem/Buffer/Cases.antt =====
-- What each call does to a consistent requestBuffer.
use goxdcr.Prelude.{
  ℕ, suc, ◌<◌, ◌≡◌, refl, ap, ◌⊎◌, inl, inr, true, false, Option, none, some, List, ◌∷◌, arith, leb,
  ◌==◌, Bool-cases, Option-cases, List-cases, length, In,
}
use goxdcr.Requests.{McRequest}
use goxdcr.Xmem.Buffer.{
  RequestBuffer, returns, blocks, BufferError, invalid_slot_index, reservation_does_not_match,
  get_pos_from_opaque, free_slot, fill_slot, notify, en_slot, clear_slot, Received, is_matched,
  is_ignored, invalid_state, receive_success, reservation_differs,
}
use goxdcr.Xmem.Buffer.Slots.{IsConsistent, full, count_full, full_below}
use goxdcr.Xmem.Buffer.Keeps.{notify_cases, notify-IsConsistent, free_slot-IsConsistent}

-- A slot with a request has a token to give back.
pub clear_slot_frees :
    (pos : ℕ) (reservation : Option ℕ) (buf : RequestBuffer) (r : McRequest)
    → IsConsistent buf
    → pos < buf.size
    → (buf.slots pos).req ≡ some r
    → reservation_differs reservation (buf.slots pos).reservation ≡ false
    → clear_slot pos reservation buf ≡ returns (none, notify (free_slot pos buf))
unfolding clear_slot
clear_slot_frees pos reservation buf r c l n d =
    let e : leb buf.size pos ≡ false = ground arith in
    let f : full (buf.slots pos) ≡ 1 = rw n refl in
    let b = full_below buf.size pos buf.slots l in
    let k : ¬ (buf.token_ch ≡ 0) = λ z. omega (arith, c.tokens, c.counts) in
    let t : (buf.token_ch == 0) ≡ false = ground arith in rw (e, n, d, t) refl

pub clear_slot_cases :
    (pos : ℕ) (reservation : Option ℕ) (buf : RequestBuffer)
    → IsConsistent buf
    → ((err : Option BufferError) × (clear_slot pos reservation buf ≡ returns (err, buf)))
      ⊎ ((r : McRequest) × (pos < buf.size)
          × ((buf.slots pos).req ≡ some r)
          × (clear_slot pos reservation buf ≡ returns (none, notify (free_slot pos buf))))
unfolding clear_slot
clear_slot_cases pos reservation buf c = elim (Bool-cases (leb buf.size pos)) [
  | inl e ↦ inl (some invalid_slot_index, rw e refl)
  | inr e ↦ elim (Option-cases (buf.slots pos).req) [
    | inl n ↦ inl (none, rw (e, n) refl)
    | inr (r, n) ↦
        let l : pos < buf.size = ground arith in
        elim (Bool-cases (reservation_differs reservation (buf.slots pos).reservation)) [
          | inl d ↦ inl (some reservation_does_not_match, rw (e, n, d) refl)
          | inr d ↦ inr (r, l, n, clear_slot_frees pos reservation buf r c l n d)
        ]
  ]
]

pub notify_size : (pos : ℕ) (buf : RequestBuffer) → (notify (free_slot pos buf)).size ≡ buf.size
unfolding free_slot
notify_size pos buf = elim (notify_cases (free_slot pos buf)) [
  | inl e ↦ ap (λ b. b.size) e
  | inr e ↦ ap (λ b. b.size) e
]

pub free_slot_keeps :
    (pos : ℕ) (r : McRequest) (buf : RequestBuffer)
    → IsConsistent buf
    → pos < buf.size
    → (buf.slots pos).req ≡ some r
    → IsConsistent (notify (free_slot pos buf)) × ((notify (free_slot pos buf)).size ≡ buf.size)
free_slot_keeps pos r buf c l n = (
  notify-IsConsistent (free_slot pos buf) (free_slot-IsConsistent pos r buf c l n),
  notify_size pos buf,
)

pub receive_matched :
    (opaque : ℕ) (buf : RequestBuffer) (r : McRequest)
    → IsConsistent buf
    → get_pos_from_opaque opaque < buf.size
    → (buf.slots (get_pos_from_opaque opaque)).req ≡ some r
    → r.opaque ≡ opaque
    → receive_success opaque buf
      ≡ returns (is_matched, notify (free_slot (get_pos_from_opaque opaque) buf))
unfolding receive_success
receive_matched opaque buf r c l n q =
    let pos = get_pos_from_opaque opaque in
    let e : leb buf.size pos ≡ false = ground arith in
    let d : (r.opaque == opaque) ≡ true = ground arith in
    let f = clear_slot_frees pos none buf r c l n refl in rw (e, n, d, f) refl

pub receive_success_cases :
    (opaque : ℕ) (buf : RequestBuffer)
    → IsConsistent buf
    → ((a : Received) × (¬ (a ≡ is_matched)) × (receive_success opaque buf ≡ returns (a, buf)))
      ⊎ ((r : McRequest) × (get_pos_from_opaque opaque < buf.size)
          × ((buf.slots (get_pos_from_opaque opaque)).req ≡ some r)
          × (r.opaque ≡ opaque)
          × (receive_success opaque buf
              ≡ returns (is_matched, notify (free_slot (get_pos_from_opaque opaque) buf))))
unfolding receive_success
receive_success_cases opaque buf c =
    let pos = get_pos_from_opaque opaque in
    elim (Bool-cases (leb buf.size pos)) [
      | inl e ↦ inl (invalid_state, λ q. ground arith, rw e refl)
      | inr e ↦ elim (Option-cases (buf.slots pos).req) [
        | inl n ↦ inl (is_ignored, λ q. ground arith, rw (e, n) refl)
        | inr (r, n) ↦ elim (Bool-cases (r.opaque == opaque)) [
          | inl d ↦
              let l : pos < buf.size = ground arith in
              let q : r.opaque ≡ opaque = ground arith in
              inr (r, l, n, q, receive_matched opaque buf r c l n q)
          | inr d ↦ inl (is_ignored, λ q. ground arith, rw (e, n, d) refl)
        ]
      ]
    ]

pub fill_slot_size :
    (index : ℕ) (free : List ℕ) (req : McRequest) (random now : ℕ) (buf : RequestBuffer)
    → (fill_slot index free req random now buf).size ≡ buf.size
unfolding fill_slot
fill_slot_size index free req random now buf = refl

pub en_slot_cases :
    (req : McRequest) (random now : ℕ) (buf : RequestBuffer)
    → IsConsistent buf
    → ((en_slot req random now buf ≡ blocks) × (count_full buf.size buf.slots ≡ buf.size))
      ⊎ ((index : ℕ) × (free : List ℕ) × (buf.empty_slots_pos ≡ index ∷ free)
          × (en_slot req random now buf ≡ returns (index, fill_slot index free req random now buf)))
unfolding en_slot
en_slot_cases req random now buf c = elim (List-cases buf.empty_slots_pos) [
  | inl e ↦
      let k : length buf.empty_slots_pos ≡ 0 = rw e refl in
      inl (rw e refl, omega (arith, c.counts, c.rest_is_free))
  | inr (index, free, e) ↦
      let here : In index buf.empty_slots_pos = rw e (inl refl) in
      let empty = c.free_is_empty index here in
      let k : length buf.empty_slots_pos ≡ suc (length free) = rw e refl in
      let t : buf.token_ch < buf.token_room = omega (arith, c.tokens, c.rest_is_free, c.room) in
      let r : leb buf.token_room buf.token_ch ≡ false = ground arith in
      inr (index, free, e, rw (e, empty, r) refl)
]
