-- ===== src/Xmem/Buffer.antt =====
-- parts/xmem_nozzle.go, requestBuffer: the mutations that were sent and not yet acknowledged.
pub mod Opaque
pub mod Slots
pub mod Keeps
pub mod Cases
pub mod Events
pub mod Responses
use Prim.Native.Nat.{bit_and}
use goxdcr.Prelude.{
  ℕ, zero, suc, ◌+◌, ◌-◌, ◌*◌, ◌%◌, ◌^◌, Bool, true, false, not, ◌&&◌, ◌||◌, Option, none, some,
  List, [], ◌∷◌, ◌++◌, ltb, leb, ◌==◌, if◌then◌else◌, set_at,
}
use goxdcr.Requests.{
  CommandCode, upr_mutation, upr_deletion, upr_expiration, tap_mutation, tap_delete, set_with_meta,
  delete_with_meta, McRequest,
}

unfoldable pub encode_op_code : CommandCode → CommandCode
encode_op_code upr_mutation = set_with_meta
encode_op_code tap_mutation = set_with_meta
encode_op_code tap_delete = delete_with_meta
encode_op_code upr_deletion = delete_with_meta
encode_op_code upr_expiration = delete_with_meta
encode_op_code code = code

-- A reservation of -1 is `none`. Times are numbers.
pub record BufferedMcRequest : Type 0 where
  pub req : Option McRequest
  pub sent_time : Option ℕ
  pub num_of_retry : ℕ
  pub timedout : Bool
  pub reservation : Option ℕ

abbrev pub empty_request : BufferedMcRequest
empty_request = record {
  req = none;
  sent_time = none;
  num_of_retry = 0;
  timedout = false;
  reservation = none;
}

-- `token_ch` has as many tokens as it holds, and room for `token_room` of them. `notifych` is the notify
-- channel, with whether a notification waits in it.
pub record RequestBuffer : Type 0 where
  pub slots : ℕ → BufferedMcRequest
  pub sequences : ℕ → ℕ
  pub empty_slots_pos : List ℕ
  pub occupied_count : ℕ
  pub size : ℕ
  pub notifych : Option Bool
  pub notify_threshold : ℕ
  pub token_ch : ℕ
  pub token_room : ℕ

-- 0, 1, and so on, n numbers from i on.
abbrev pub count_from : ℕ → ℕ → List ℕ
count_from i zero = []
count_from i (suc n) = i ∷ count_from (suc i) n

unfoldable pub new_req_buffer : ℕ → ℕ → ℕ → RequestBuffer
new_req_buffer size threshold token_room = record {
  slots = λ i. empty_request;
  sequences = λ i. 0;
  empty_slots_pos = count_from 0 size;
  occupied_count = 0;
  size = size;
  notifych = none;
  notify_threshold = threshold;
  token_ch = 0;
  token_room = token_room;
}

-- What a call does: it returns, it waits on a channel, or it panics.
pub data Call {ℓ} (A : Type ℓ) : Type ℓ where
  returns : A → Call A
  blocks : Call A
  call_panics : Call A

pub data BufferError : Type 0 where
  invalid_slot_index reservation_does_not_match : BufferError

unfoldable pub item_count_in_buffer : RequestBuffer → ℕ
item_count_in_buffer buf = buf.occupied_count % 2 ^ 16

unfoldable pub set_notify_ch : RequestBuffer → RequestBuffer
set_notify_ch buf = record buf { notifych = some false }

unfoldable pub unset_notify_ch : RequestBuffer → RequestBuffer
unset_notify_ch buf = record buf { notifych = none }

-- The notification that `clearSlot` ends with.
unfoldable pub notify : RequestBuffer → RequestBuffer
notify buf =
    if leb (item_count_in_buffer buf) buf.notify_threshold
    then elim buf.notifych [ none ↦ buf | some waiting ↦ record buf { notifych = some true } ]
    else buf

unfoldable pub get_opaque : ℕ → ℕ → ℕ
get_opaque index sequence = (sequence * 2 ^ 16 % 2 ^ 32 + index) % 2 ^ 32

unfoldable pub get_pos_from_opaque : ℕ → ℕ
get_pos_from_opaque opaque = bit_and 0xffff opaque % 2 ^ 16

-- Whether a reservation number that is given is not the slot's own.
abbrev pub reservation_differs : Option ℕ → Option ℕ → Bool
reservation_differs none own = false
reservation_differs (some n) none = true
reservation_differs (some n) (some m) = not (m == n)

-- A slot with its request is emptied: the position is free again, a token is taken, and the slot's
-- sequence goes on. The free positions always have room in their channel.
unfoldable pub free_slot : ℕ → RequestBuffer → RequestBuffer
free_slot pos buf = record buf {
  slots = set_at pos empty_request buf.slots;
  empty_slots_pos = buf.empty_slots_pos ++ pos ∷ [];
  occupied_count = buf.occupied_count - 1;
  token_ch = buf.token_ch - 1;
  sequences = set_at pos ((buf.sequences pos + 1) % 2 ^ 16) buf.sequences;
}

-- `clearSlot`; with no reservation number there is no check of it.
unfoldable pub clear_slot : ℕ → Option ℕ → RequestBuffer → Call (Option BufferError × RequestBuffer)
clear_slot pos reservation_num buf =
    if leb buf.size pos then returns (some invalid_slot_index, buf) else elim (buf.slots pos).req [
      | none ↦ returns (none, buf)
      | some req ↦
          if reservation_differs reservation_num (buf.slots pos).reservation
          then returns (some reservation_does_not_match, buf)
          else if buf.token_ch == 0
          then blocks
          else returns (none, notify (free_slot pos buf))
    ]

abbrev pub evict_slot : ℕ → RequestBuffer → Call (Option BufferError × RequestBuffer)
evict_slot pos buf = clear_slot pos none buf

unfoldable pub adjust_request : McRequest → ℕ → RequestBuffer → McRequest
adjust_request req index buf = record req {
  opcode = encode_op_code req.opcode;
  cas = 0;
  opaque = get_opaque index (buf.sequences index);
}

abbrev pub is_empty : BufferedMcRequest → Bool
is_empty slot = elim slot.req [
  | some req ↦ false
  | none ↦ elim slot.reservation [ none ↦ true | some n ↦ false ]
]

-- The slot taken, with its request.
unfoldable pub fill_slot : ℕ → List ℕ → McRequest → ℕ → ℕ → RequestBuffer → RequestBuffer
fill_slot index free req random now buf = record buf {
  slots =
      set_at index
        (record (buf.slots index) {
          req = some (adjust_request req index buf);
          sent_time = some now;
          reservation = some random;
        })
        buf.slots;
  empty_slots_pos = free;
  token_ch = buf.token_ch + 1;
  occupied_count = buf.occupied_count + 1;
}

-- `enSlot`, with the number that `rand.Int` gives: the position and the buffer.
unfoldable pub en_slot : McRequest → ℕ → ℕ → RequestBuffer → Call (ℕ × RequestBuffer)
en_slot req random now buf = elim buf.empty_slots_pos [
  | [] ↦ blocks
  | index ∷ free ↦
      if not (is_empty (buf.slots index))
      then call_panics
      else if leb buf.token_room buf.token_ch
      then blocks
      else returns (index, fill_slot index free req random now buf)
]

-- What becomes of a response.
pub data Received : Type 0 where
  is_matched is_ignored invalid_state : Received

-- The part of `receiveResponse` about a response that says success. The code locks the slot twice, in
-- slotWithSentTime to read the request and in evictSlot; here nothing comes in between.
unfoldable pub receive_success : ℕ → RequestBuffer → Call (Received × RequestBuffer)
receive_success response_opaque buf =
    let pos = get_pos_from_opaque response_opaque in
    if leb buf.size pos then returns (invalid_state, buf) else elim (buf.slots pos).req [
      | none ↦ returns (is_ignored, buf)
      | some req ↦
          if req.opaque == response_opaque
          then elim (evict_slot pos buf) [
            | returns (err, next) ↦ elim err [
              | none ↦ returns (is_matched, next)
              | some e ↦ call_panics
            ]
            | blocks ↦ blocks
            | call_panics ↦ call_panics
          ]
          else returns (is_ignored, buf)
    ]
