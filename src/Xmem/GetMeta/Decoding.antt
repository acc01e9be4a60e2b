-- ===== src/Xmem/GetMeta/Decoding.antt =====
-- The metadata that is read from requests and responses.
use goxdcr.Prelude.{
  ℕ, zero, suc, ◌+◌, ◌^◌, ◌≤◌, ◌<◌, ◌≡◌, refl, ap, ◌∙◌, Bool, true, false, none, some, List, [],
  ◌∷◌, ◌++◌, arith, ltb, leb, leb→le, Bool-cases, length, take, drop, get_elem?, done, panics,
  ◌>>=◌, ◌⊎◌, inl, inr,
}
use goxdcr.Requests.{CommandCode, delete_with_meta, McRequest}
use goxdcr.Requests.Bytes.{
  slice, be_uint32, be_uint64, be_value, be_value-be_uint32, be_value-be_uint64,
}
use goxdcr.Xmem.Conflict.{DocumentMetadata, ConflictResolutionMode}
use goxdcr.Xmem.GetMeta.{decode_set_meta_req, McResponse, decode_data_type, decode_get_meta_resp}
use goxdcr.Router.{UprEvent, compose_mc_request}
use goxdcr.Router.Extras.{
  IsMutation, composed, slice_flags, slice_expiry, slice_rev, compose_mc_request_lem,
}

-- The metadata of a mutation, as the request for it is decoded: its own, and never a deletion.
abbrev pub metadata_of : UprEvent → DocumentMetadata
metadata_of event = record {
  rev_seq = event.rev_seqno;
  cas = event.cas;
  flags = event.flags;
  expiry = event.expiry;
  deletion = false;
  data_type = event.data_type;
}

not_delete_with_meta :
    (opcode : CommandCode)
    → IsMutation opcode
    → (elim opcode [ delete_with_meta ↦ true | _ ↦ false ]) ≡ false
not_delete_with_meta opcode (inl e) = rw e refl
not_delete_with_meta opcode (inr (inl e)) = rw e refl
not_delete_with_meta opcode (inr (inr e)) = rw e refl

decoded_from :
    (req : McRequest) (flags expiry rev_seq : List ℕ)
    → slice req.extras 0 4 ≡ done flags
    → slice req.extras 4 4 ≡ done expiry
    → slice req.extras 8 8 ≡ done rev_seq
    → decode_set_meta_req req
      ≡ done (record {
        rev_seq = be_value 0 rev_seq;
        cas = req.cas;
        flags = be_value 0 flags;
        expiry = be_value 0 expiry;
        deletion = elim req.opcode [ delete_with_meta ↦ true | _ ↦ false ];
        data_type = req.data_type;
      })
unfolding decode_set_meta_req
decoded_from req flags expiry rev_seq f e r = rw (f, e, r) refl

-- The request that the router composes of a mutation, deletion or expiration is decoded to the metadata
-- of the event, except that it is never taken for a deletion, since it has the opcode of DCP.
pub decode_set_meta_req-compose_mc_request :
    (mode : ConflictResolutionMode) (event : UprEvent) (recycled : McRequest)
    → IsMutation event.opcode
    → event.flags < 2 ^ 32
    → event.expiry < 2 ^ 32
    → event.rev_seqno < 2 ^ 64
    → (compose_mc_request mode recycled event >>= decode_set_meta_req) ≡ done (metadata_of event)
decode_set_meta_req-compose_mc_request mode event recycled h f e r =
    let c = compose_mc_request_lem mode event recycled h in
    let d = not_delete_with_meta event.opcode h in
    let vf = be_value-be_uint32 event.flags f in
    let ve = be_value-be_uint32 event.expiry e in
    let vr = be_value-be_uint64 event.rev_seqno r in
    ap (λ o. o >>= decode_set_meta_req) c
    ∙ decoded_from (composed mode event) (be_uint32 event.flags) (be_uint32 event.expiry)
        (be_uint64 event.rev_seqno) (slice_flags mode event) (slice_expiry mode event)
        (slice_rev mode event)
    ∙ (λ i. done (record {
      rev_seq = vr i;
      cas = event.cas;
      flags = vf i;
      expiry = ve i;
      deletion = d i;
      data_type = event.data_type;
    }))

slice_inside :
    (xs : List ℕ) (from n : ℕ)
    → from + n ≤ length xs
    → (bytes : List ℕ) × (slice xs from n ≡ done bytes)
slice_inside xs from n h =
    let e : leb (from + n) (length xs) ≡ true = ground arith in (take n (drop from xs), rw e refl)

elem_inside : (xs : List ℕ) (i : ℕ) → i < length xs → (b : ℕ) × (get_elem? xs i ≡ some b)
elem_inside [] i h = absurd (omega arith)
elem_inside (x ∷ xs) zero h = (x, refl)
elem_inside (x ∷ xs) (suc i) h = elem_inside xs i (omega arith)

elem_outside : (xs : List ℕ) (i : ℕ) → length xs ≤ i → get_elem? xs i ≡ none
elem_outside [] i h = refl
elem_outside (x ∷ xs) zero h = absurd (omega arith)
elem_outside (x ∷ xs) (suc i) h = elem_outside xs i (omega arith)

-- Where the data type comes from: the response, or the 21st byte of its extras.
abbrev pub IsDataType : Bool → McResponse → ℕ → Type 0
IsDataType xattr_enabled resp byte =
    ((xattr_enabled ≡ false) × (byte ≡ resp.data_type))
    ⊎ ((xattr_enabled ≡ true) × (20 < length resp.extras) × (get_elem? resp.extras 20 ≡ some byte))

IsDataType-cases :
    (xattr_enabled : Bool) (resp : McResponse)
    → ((xattr_enabled ≡ true)
        × (length resp.extras ≡ 20)
        × (decode_data_type xattr_enabled resp ≡ panics))
      ⊎ (((xattr_enabled ≡ true)
            × (length resp.extras < 20)
            × (decode_data_type xattr_enabled resp ≡ done none))
          ⊎ ((byte : ℕ) × (decode_data_type xattr_enabled resp ≡ done (some byte))
              × IsDataType xattr_enabled resp byte))
unfolding decode_data_type
IsDataType-cases false resp = inr (inr (resp.data_type, refl, inl (refl, refl)))
IsDataType-cases true resp = elim (Bool-cases (ltb (length resp.extras) 20)) [
  | inl e ↦ inr (inl (refl, ground arith, rw e refl))
  | inr e ↦ elim (Bool-cases (leb (length resp.extras) 20)) [
    | inl l ↦
        let o = elem_outside resp.extras 20 (leb→le (length resp.extras) 20 l) in
        inl (refl, ground arith, rw (e, o) refl)
    | inr l ↦
        let (b, o) = elem_inside resp.extras 20 (ground arith) in
        inr (inr (b, rw (e, o) refl, inr (refl, ground arith, o)))
  ]
]

-- A getMeta response is decoded to metadata, with its cas, only when the slice has room for 20 bytes of
-- extras; the data type is the response's own when extended attributes are not enabled, and else the
-- 21st byte of the extras, which then have that many. When they are enabled, fewer than 20 bytes of
-- extras in that room are the error of a missing data type, but with exactly 20 the code panics; and it
-- panics whenever there is no room for 20 bytes.
pub decode_get_meta_resp_cases :
    (xattr_enabled : Bool) (resp : McResponse)
    → ((length (resp.extras ++ resp.extras_room) < 20)
        × (decode_get_meta_resp xattr_enabled resp ≡ panics))
      ⊎ (((xattr_enabled ≡ true)
            × (length resp.extras ≡ 20)
            × (decode_get_meta_resp xattr_enabled resp ≡ panics))
          ⊎ (((xattr_enabled ≡ true)
                × (length resp.extras < 20)
                × (decode_get_meta_resp xattr_enabled resp ≡ done none))
              ⊎ ((20 ≤ length (resp.extras ++ resp.extras_room))
                  × (target : DocumentMetadata) × (decode_get_meta_resp xattr_enabled resp
                      ≡ done (some target))
                  × (target.cas ≡ resp.cas)
                  × IsDataType xattr_enabled resp target.data_type)))
unfolding decode_get_meta_resp
decode_get_meta_resp_cases xattr_enabled resp =
    let buffer = resp.extras ++ resp.extras_room in
    elim (Bool-cases (ltb (length buffer) 20)) [
      | inl l ↦ inl (ground arith, ground arith)
      | inr l ↦
          let h : 20 ≤ length buffer = ground arith in
          let (b1, e1) = slice_inside buffer 0 4 (omega arith) in
          let (b2, e2) = slice_inside buffer 4 4 (omega arith) in
          let (b3, e3) = slice_inside buffer 8 4 (omega arith) in
          let (b4, e4) = slice_inside buffer 12 8 (omega arith) in
          elim (IsDataType-cases xattr_enabled resp) [
            | inl (x, k, p) ↦ inr (inl (x, k, rw (e1, e2, e3, e4, p) refl))
            | inr (inl (x, k, p)) ↦ inr (inr (inl (x, k, rw (e1, e2, e3, e4, p) refl)))
            | inr (inr (b, p, d)) ↦ inr (
                inr (
                  inr (
                    h,
                    record {
                      rev_seq = be_value 0 b4;
                      cas = resp.cas;
                      flags = be_value 0 b2;
                      expiry = be_value 0 b3;
                      deletion = ltb 0 (be_value 0 b1);
                      data_type = b;
                    },
                    rw (e1, e2, e3, e4, p) refl,
                    refl,
                    d,
                  )))
          ]
    ]
