-- ===== src/Xmem/GetMeta.antt =====
-- parts/xmem_nozzle.go, batchGetMeta, and parts/outgoing_nozzle_common.go: which documents of a batch the
-- target is asked about, and which of them need not be sent.
pub mod Decoding
pub mod Batches
use goxdcr.Prelude.{
  ℕ, zero, suc, Bool, true, false, not, ◌&&◌, Option, none, some, List, [], ◌∷◌, ◌++◌, ltb, leb,
  ◌==◌, if◌then◌else◌, length, get_elem?, Outcome, done, panics, out_of_fuel, ◌>>=◌, or_panic,
}
use goxdcr.Requests.{CommandCode, delete_with_meta, McRequest}
use goxdcr.Requests.Bytes.{slice, be_value}
use goxdcr.Xmem.Conflict.{DocumentMetadata, ConflictResolutionMode, resolve_conflict}

-- The metadata of a document, as the request that is to be sent has it.
unfoldable pub decode_set_meta_req : McRequest → Outcome DocumentMetadata
decode_set_meta_req req = slice req.extras 0 4 >>= λ flags. slice req.extras 4 4 >>= λ expiry.
    slice req.extras 8 8 >>= λ rev_seq. done (record {
      rev_seq = be_value 0 rev_seq;
      cas = req.cas;
      flags = be_value 0 flags;
      expiry = be_value 0 expiry;
      deletion = elim req.opcode [ delete_with_meta ↦ true | _ ↦ false ];
      data_type = req.data_type;
    })

-- The status codes of a response that the code tells apart.
pub data Status : Type 0 where
  success no_bucket not_my_vbucket key_enoent key_eexists tmpfail enomem ebusy not_initialized :
      Status
  other_status : ℕ → Status

-- `extras_room` has the bytes behind the extras, up to the capacity of their slice: a slice expression
-- reaches them, an index does not.
pub record McResponse : Type 0 where
  pub status : Status
  pub cas : ℕ
  pub extras : List ℕ
  pub extras_room : List ℕ
  pub data_type : ℕ

abbrev pub is_topology_change_mc_error : Status → Bool
is_topology_change_mc_error no_bucket = true
is_topology_change_mc_error not_my_vbucket = true
is_topology_change_mc_error _ = false

abbrev pub is_success : Status → Bool
is_success success = true
is_success _ = false

-- The data type of the response, or none for the error that there is none.
unfoldable pub decode_data_type : Bool → McResponse → Outcome (Option ℕ)
decode_data_type xattr_enabled resp =
    if xattr_enabled
    then if ltb (length resp.extras) 20
      then done none
      else (or_panic (get_elem? resp.extras 20) >>= λ byte. done (some byte))
    else done (some resp.data_type)

-- The metadata of the target's document; none is the error.
unfoldable pub decode_get_meta_resp : Bool → McResponse → Outcome (Option DocumentMetadata)
decode_get_meta_resp xattr_enabled resp =
    let buffer = resp.extras ++ resp.extras_room in
    slice buffer 0 4 >>= λ deletion. slice buffer 4 4 >>= λ flags. slice buffer 8 4 >>= λ expiry.
    slice buffer 12 8 >>= λ rev_seq. decode_data_type xattr_enabled resp >>= λ data_type.
    done (elim data_type [
      | none ↦ none
      | some byte ↦ some (record {
        rev_seq = be_value 0 rev_seq;
        cas = resp.cas;
        flags = be_value 0 flags;
        expiry = be_value 0 expiry;
        deletion = ltb 0 (be_value 0 deletion);
        data_type = byte;
      })
    ])

abbrev pub same_bytes : List ℕ → List ℕ → Bool
same_bytes [] [] = true
same_bytes [] (y ∷ ys) = false
same_bytes (x ∷ xs) [] = false
same_bytes (x ∷ xs) (y ∷ ys) = (x == y) && same_bytes xs ys

-- bigDoc_noRep_map: whether a document is known not to be sent, and if so whether it failed conflict
-- resolution.
abbrev pub NoRepMap : Type 0
NoRepMap = List (List ℕ × Bool)

abbrev pub lookup_key {ℓ} : {A : Type ℓ} → List ℕ → List (List ℕ × A) → Option A
lookup_key key [] = none
lookup_key key ((k, a) ∷ rest) = if same_bytes key k then some a else lookup_key key rest

-- What the response to a document's getMeta makes of it.
unfoldable pub classify :
    ConflictResolutionMode → Bool → McRequest → Option McResponse → Outcome (Option Bool)
classify mode xattr_enabled req none = done none
classify mode xattr_enabled req (some resp) =
    let resolved = decode_get_meta_resp xattr_enabled resp >>= λ target. elim target [
      | none ↦ done none
      | some t ↦ decode_set_meta_req req >>= λ s.
          done (if resolve_conflict s t mode xattr_enabled then none else some true)
    ] in
    if is_success resp.status
    then resolved
    else if is_topology_change_mc_error resp.status
    then done (some false)
    else done none

abbrev pub note : List ℕ → Option Bool → NoRepMap → NoRepMap
note key none m = m
note key (some b) m = (key, b) ∷ m

-- The end of `batchGetMeta`, with the responses by document key. The requests are those of bigDoc_map,
-- in the order of a list, for any order.
unfoldable pub parse_responses :
    ConflictResolutionMode
    → Bool
    → List (List ℕ × McResponse)
    → List McRequest
    → NoRepMap
    → Outcome NoRepMap
parse_responses mode xattr_enabled responses [] m = done m
parse_responses mode xattr_enabled responses (req ∷ rest) m =
    classify mode xattr_enabled req (lookup_key req.key responses) >>= λ c.
    parse_responses mode xattr_enabled responses rest (note req.unique_key c m)

pub data NeedSendStatus : Type 0 where
  send not_send_failed_cr not_send_other : NeedSendStatus

-- `needSend`.
unfoldable pub need_send : McRequest → NoRepMap → NeedSendStatus
need_send req no_rep_map = elim (lookup_key req.unique_key no_rep_map) [
  | none ↦ send
  | some failed_cr ↦ if failed_cr then not_send_failed_cr else not_send_other
]
