-- ===== src/Xmem/Buffer/Responses.antt =====
-- Which responses take a request out of the requestBuffer.
use goxdcr.Prelude.{
  ℕ, ◌+◌, ◌%◌, ◌^◌, ◌<◌, ◌≡◌, refl, sym, subst, ap, ◌∙◌, inl, inr, false, some, List, ◌∷◌, arith,
  leb, ◌==◌, Option-cases, In, set_at_same,
}
use goxdcr.Requests.{McRequest}
use goxdcr.Xmem.Buffer.{
  RequestBuffer, returns, get_opaque, get_pos_from_opaque, free_slot, fill_slot, adjust_request,
  notify, en_slot, is_matched, is_ignored, receive_success,
}
use goxdcr.Xmem.Buffer.Slots.{IsConsistent}
use goxdcr.Xmem.Buffer.Keeps.{notify_cases, fill_slot-IsConsistent}
use goxdcr.Xmem.Buffer.Opaque.{get_pos_from_opaque-get_opaque}
use goxdcr.Xmem.Buffer.Cases.{
  free_slot_keeps, receive_matched, receive_success_cases, fill_slot_size, en_slot_cases,
}

next_sequence :
    (index s : ℕ)
    → index < 2 ^ 16
    → s < 2 ^ 16
    → ¬ (get_opaque index ((s + 1) % 2 ^ 16) ≡ get_opaque index s)
unfolding get_opaque
next_sequence index s h l e = omega arith

en_slot_inv :
    (req : McRequest) (random now index : ℕ) (buf next : RequestBuffer)
    → IsConsistent buf
    → en_slot req random now buf ≡ returns (index, next)
    → (free : List ℕ) × (buf.empty_slots_pos ≡ index ∷ free)
      × (next ≡ fill_slot index free req random now buf)
en_slot_inv req random now index buf next c e = elim (en_slot_cases req random now buf c) [
  | inl (b, f) ↦ ground arith
  | inr (i, free, h, r) ↦
      let q : returns (i, fill_slot i free req random now buf) ≡ returns (index, next) =
        sym r ∙ e in
      let qi : i ≡ index = ap (λ o. elim o [ returns a ↦ a.0 | _ ↦ 0 ]) q in
      let qn = ap (λ o. elim o [ returns a ↦ a.1 | _ ↦ buf ]) q in
      (free, h ∙ ap (λ k. k ∷ free) qi, sym qn ∙ ap (λ k. fill_slot k free req random now buf) qi)
]

receive_ignored :
    (opaque : ℕ) (buf : RequestBuffer)
    → get_pos_from_opaque opaque < buf.size
    → ((r : McRequest)
        → (buf.slots (get_pos_from_opaque opaque)).req ≡ some r
        → ¬ (r.opaque ≡ opaque))
    → receive_success opaque buf ≡ returns (is_ignored, buf)
unfolding receive_success
receive_ignored opaque buf l n =
    let pos = get_pos_from_opaque opaque in
    let e : leb buf.size pos ≡ false = ground arith in
    elim (Option-cases (buf.slots pos).req) [
      | inl h ↦ rw (e, h) refl
      | inr (r, h) ↦
          let no = n r h in let d : (r.opaque == opaque) ≡ false = ground arith in rw (e, h, d) refl
    ]

fill_slot-request :
    (index : ℕ) (free : List ℕ) (req : McRequest) (random now : ℕ) (buf : RequestBuffer)
    → ((fill_slot index free req random now buf).slots index).req
      ≡ some (adjust_request req index buf)
unfolding fill_slot
fill_slot-request index free req random now buf = ap (λ b. b.req) (set_at_same index _ buf.slots)

-- The response to a request that enSlot has put in the buffer is matched to that request, and frees its
-- slot.
pub response_is_matched :
    (req : McRequest) (random now index : ℕ) (buf next : RequestBuffer)
    → IsConsistent buf
    → en_slot req random now buf ≡ returns (index, next)
    → receive_success (get_opaque index (buf.sequences index)) next
      ≡ returns (is_matched, notify (free_slot index next))
unfolding adjust_request
response_is_matched req random now index buf next c e =
    let (free, h, q) = en_slot_inv req random now index buf next c e in
    let here : In index buf.empty_slots_pos = rw h (inl refl) in
    let l = c.in_range index here in
    let k = fill_slot-IsConsistent index free req random now buf c h in
    let filled = fill_slot index free req random now buf in
    let opaque = get_opaque index (buf.sequences index) in
    let p = get_pos_from_opaque-get_opaque index (buf.sequences index) (omega (arith, c.small)) in
    subst (λ b. receive_success opaque b ≡ returns (is_matched, notify (free_slot index b))) (sym q)
      (subst
        (λ pos. receive_success opaque filled ≡ returns (is_matched, notify (free_slot pos filled)))
        p
        (receive_matched opaque filled (adjust_request req index buf) k
          (rw (p, fill_slot_size index free req random now buf) l)
          (ap (λ pos. (filled.slots pos).req) p ∙ fill_slot-request index free req random now buf)
          refl))

freed_sequences :
    (pos : ℕ) (buf : RequestBuffer)
    → (notify (free_slot pos buf)).sequences pos ≡ (buf.sequences pos + 1) % 2 ^ 16
unfolding free_slot
freed_sequences pos buf =
    let s = set_at_same pos ((buf.sequences pos + 1) % 2 ^ 16) buf.sequences in
    elim (notify_cases (free_slot pos buf)) [
      | inl e ↦ ap (λ b. b.sequences pos) e ∙ s
      | inr e ↦ ap (λ b. b.sequences pos) e ∙ s
    ]

fill_slot_sequences :
    (index : ℕ) (free : List ℕ) (req : McRequest) (random now : ℕ) (buf : RequestBuffer)
    → (fill_slot index free req random now buf).sequences ≡ buf.sequences
unfolding fill_slot
fill_slot_sequences index free req random now buf = refl

-- A response that comes again, after its slot was freed and whichever request was put in the buffer
-- next, is ignored.
pub response_again_is_ignored :
    (opaque : ℕ) (req : McRequest) (random now index : ℕ) (buf freed next : RequestBuffer)
    → IsConsistent buf
    → receive_success opaque buf ≡ returns (is_matched, freed)
    → en_slot req random now freed ≡ returns (index, next)
    → receive_success opaque next ≡ returns (is_ignored, next)
response_again_is_ignored opaque req random now index buf freed next c e h =
    elim (receive_success_cases opaque buf c) [
      | inl (a, m, q) ↦ absurd (m (ap (λ o. elim o [ returns x ↦ x.0 | _ ↦ a ]) (sym q ∙ e)))
      | inr (r, l, n, o, q) ↦
          let pos = get_pos_from_opaque opaque in
          let f : freed ≡ notify (free_slot pos buf) =
            ap (λ o. elim o [ returns x ↦ x.1 | _ ↦ buf ]) (sym e ∙ q) in
          let (cf, size) = free_slot_keeps pos r buf c l n in
          let cf : IsConsistent freed = subst (λ b. IsConsistent b) (sym f) cf in
          let (free, i, g) = en_slot_inv req random now index freed next cf h in
          let cn : IsConsistent next =
            subst (λ b. IsConsistent b) (sym g)
              (fill_slot-IsConsistent index free req random now freed cf i) in
          let s : next.sequences pos ≡ (buf.sequences pos + 1) % 2 ^ 16 =
            ap (λ b. b.sequences pos) g
            ∙ ap (λ m. m pos) (fill_slot_sequences index free req random now freed)
            ∙ ap (λ b. b.sequences pos) f
            ∙ freed_sequences pos buf in
          let z : next.size ≡ buf.size =
            ap (λ b. b.size) g
            ∙ fill_slot_size index free req random now freed
            ∙ ap (λ b. b.size) f
            ∙ size in
          receive_ignored opaque next (omega arith) (λ t w v.
            next_sequence pos (buf.sequences pos) (omega (arith, c.small)) (c.sequences_fit pos) (
              ap (λ x. get_opaque pos x) (sym s)
              ∙ sym (cn.own_opaque pos t w)
              ∙ v
              ∙ sym o
              ∙ c.own_opaque pos r n))
    ]
