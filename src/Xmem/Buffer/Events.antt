-- ===== src/Xmem/Buffer/Events.antt =====
-- The requestBuffer under any sequence of calls.
use goxdcr.Prelude.{
  ℕ, ◌^◌, ◌≤◌, ◌<◌, ◌≡◌, refl, subst, inl, inr, false, Option, none, some, List, [], ◌∷◌,
}
use goxdcr.Requests.{McRequest}
use goxdcr.Xmem.Buffer.{
  RequestBuffer, new_req_buffer, Call, returns, blocks, call_panics, get_pos_from_opaque, en_slot,
  clear_slot, set_notify_ch, unset_notify_ch, receive_success,
}
use goxdcr.Xmem.Buffer.Slots.{IsConsistent, count_full, new_req_buffer-IsConsistent}
use goxdcr.Xmem.Buffer.Keeps.{set_notifych-IsConsistent, fill_slot-IsConsistent}
use goxdcr.Xmem.Buffer.Cases.{
  clear_slot_cases, free_slot_keeps, receive_success_cases, fill_slot_size, en_slot_cases,
}

-- The calls that the nozzle's routines make of the buffer.
pub data BufferCall : Type 0 where
  enters : McRequest → ℕ → ℕ → BufferCall
  clears : ℕ → Option ℕ → BufferCall
  receives : ℕ → BufferCall
  sets_notify unsets_notify : BufferCall

-- What the call leaves of the buffer.
abbrev pub buffer_after {ℓ} : {A : Type ℓ} → Call (A × RequestBuffer) → Call RequestBuffer
buffer_after (returns r) = returns r.1
buffer_after blocks = blocks
buffer_after call_panics = call_panics

abbrev pub serve : BufferCall → RequestBuffer → Call RequestBuffer
serve (enters req random now) buf = buffer_after (en_slot req random now buf)
serve (clears pos reservation) buf = buffer_after (clear_slot pos reservation buf)
serve (receives opaque) buf = buffer_after (receive_success opaque buf)
serve sets_notify buf = returns (set_notify_ch buf)
serve unsets_notify buf = returns (unset_notify_ch buf)

abbrev Enters : BufferCall → Type 0
Enters (enters req random now) = Unit
Enters _ = ⊥

-- What may become of a call on a buffer: it returns with the buffer consistent, or it is enSlot and
-- waits since every slot holds a request.
abbrev pub GoesWell : BufferCall → RequestBuffer → Call RequestBuffer → Type 0
GoesWell call buf (returns next) = IsConsistent next × (next.size ≡ buf.size)
GoesWell call buf blocks = Enters call × (count_full buf.size buf.slots ≡ buf.size)
GoesWell call buf call_panics = ⊥

-- Any call of the nozzle's routines on a consistent buffer returns with the buffer consistent, or it is
-- enSlot and waits since every slot holds a request. No call panics.
pub serve-GoesWell :
    (call : BufferCall) (buf : RequestBuffer)
    → IsConsistent buf
    → GoesWell call buf (serve call buf)
unfolding set_notify_ch unset_notify_ch
serve-GoesWell (enters req random now) buf c = elim (en_slot_cases req random now buf c) [
  | inl (e, f) ↦ rw e (tt, f)
  | inr (index, free, h, e) ↦ rw e (
    fill_slot-IsConsistent index free req random now buf c h,
    fill_slot_size index free req random now buf,
  )
]
serve-GoesWell (clears pos reservation) buf c = elim (clear_slot_cases pos reservation buf c) [
  | inl (err, e) ↦ rw e (c, refl)
  | inr (r, l, n, e) ↦ rw e (free_slot_keeps pos r buf c l n)
]
serve-GoesWell (receives opaque) buf c = elim (receive_success_cases opaque buf c) [
  | inl (a, m, e) ↦ rw e (c, refl)
  | inr (r, l, n, q, e) ↦ rw e (free_slot_keeps (get_pos_from_opaque opaque) r buf c l n)
]
serve-GoesWell sets_notify buf c = (set_notifych-IsConsistent (some false) buf c, refl)
serve-GoesWell unsets_notify buf c = (set_notifych-IsConsistent none buf c, refl)

-- The calls one after the other, up to the first that waits or panics.
unfoldable pub serve_all : List BufferCall → RequestBuffer → Call RequestBuffer
serve_all [] buf = returns buf
serve_all (call ∷ rest) buf = elim (serve call buf) [
  | returns next ↦ serve_all rest next
  | blocks ↦ blocks
  | call_panics ↦ call_panics
]

abbrev pub Settles : ℕ → Call RequestBuffer → Type 0
Settles size (returns buf) =
    IsConsistent buf × (buf.size ≡ size) × (buf.occupied_count ≡ count_full size buf.slots)
Settles size blocks = Unit
Settles size call_panics = ⊥

serve_all-Settles :
    (calls : List BufferCall) (buf : RequestBuffer)
    → IsConsistent buf
    → Settles buf.size (serve_all calls buf)
unfolding serve_all
serve_all-Settles [] buf c = (c, refl, c.counts)
serve_all-Settles (call ∷ rest) buf c =
    go (serve call buf) (λ b. serve_all-Settles rest b) (serve-GoesWell call buf c)
  where
    go :
        (r : Call RequestBuffer)
        → ((b : RequestBuffer) → IsConsistent b → Settles b.size (serve_all rest b))
        → GoesWell call buf r
        → Settles buf.size (elim r [
          | returns next ↦ serve_all rest next
          | blocks ↦ blocks
          | call_panics ↦ call_panics
        ])
    go (returns next) ih w = subst (λ n. Settles n (serve_all rest next)) w.1 (ih next w.0)
    go blocks ih w = tt
    go call_panics ih w = w

-- From a new request buffer, of a size that its token channel has room for, no sequence of calls panics,
-- and between calls the count of occupied slots is the number of slots that hold a request.
pub new_req_buffer-Settles :
    (size threshold token_room : ℕ) (calls : List BufferCall)
    → size < 2 ^ 16
    → size ≤ token_room
    → Settles size (serve_all calls (new_req_buffer size threshold token_room))
unfolding new_req_buffer
new_req_buffer-Settles size threshold token_room calls h l =
    serve_all-Settles calls (new_req_buffer size threshold token_room)
      (new_req_buffer-IsConsistent size threshold token_room h l)
