-- ===== src/Checkpoint/Roundtrip.antt =====
-- Records written as JSON and read back.
use goxdcr.Prelude.{
  ℕ, ◌/◌, ◌%◌, ◌^◌, ◌≤◌, ◌<◌, ◌≡◌, ◌≢◌, refl, true, false, Option, none, some, done, arith, ltb,
}
use goxdcr.Checkpoint.{
  TargetVbOpaque, target_vb_uuid, target_vb_uuid_str, target_vb_uuid_and_timestamp,
  CheckpointRecord,
}
use goxdcr.Checkpoint.Decode.{
  excess_bits, through_float64, as_uint64, decoded, unmarshal_target_vb_opaque, unmarshal_json,
  marshal_opaque, to_map,
}

-- Small enough for a float64 to hold it exactly.
abbrev pub IsExact : ℕ → Type 0
IsExact n = n < 2 ^ 53

abbrev pub IsExactOpaque : Option TargetVbOpaque → Type 0
IsExactOpaque (some (target_vb_uuid u)) = IsExact u
IsExactOpaque _ = Unit {0}

pub record IsExactRecord (r : CheckpointRecord) : Type 0 where
  pub failover_uuid : IsExact r.failover_uuid
  pub seqno : IsExact r.seqno
  pub dcp_snapshot_seqno : IsExact r.dcp_snapshot_seqno
  pub dcp_snapshot_end_seqno : IsExact r.dcp_snapshot_end_seqno
  pub target_vb_opaque : IsExactOpaque r.target_vb_opaque
  pub target_seqno : IsExact r.target_seqno

through_float64_exact : (n : ℕ) → IsExact n → through_float64 n ≡ n
unfolding through_float64 excess_bits
through_float64_exact n h = let e : ltb n (2 ^ 53) ≡ true = ground arith in rw e

opaque_roundtrip :
    (o : Option TargetVbOpaque)
    → IsExactOpaque o
    → unmarshal_target_vb_opaque (marshal_opaque o) ≡ decoded o
unfolding unmarshal_target_vb_opaque marshal_opaque
opaque_roundtrip none h = refl
opaque_roundtrip (some (target_vb_uuid u)) h = rw (through_float64_exact u h)
opaque_roundtrip (some (target_vb_uuid_str u)) h = refl
opaque_roundtrip (some (target_vb_uuid_and_timestamp u s)) h = refl

-- A record whose numbers are all below 2^53 is read back as it was written, into any record.
pub unmarshal_json-to_map :
    (r old : CheckpointRecord)
    → IsExactRecord r
    → unmarshal_json (some (to_map r)) old ≡ done (decoded r)
unfolding unmarshal_json to_map as_uint64
unmarshal_json-to_map r old h = rw (
  through_float64_exact r.failover_uuid h.failover_uuid,
  through_float64_exact r.seqno h.seqno,
  through_float64_exact r.dcp_snapshot_seqno h.dcp_snapshot_seqno,
  through_float64_exact r.dcp_snapshot_end_seqno h.dcp_snapshot_end_seqno,
  through_float64_exact r.target_seqno h.target_seqno,
  opaque_roundtrip r.target_vb_opaque h.target_vb_opaque,
)

excess_one : (n : ℕ) → 2 ^ 53 ≤ n → n < 2 ^ 54 → excess_bits 12 n ≡ 1
unfolding excess_bits
excess_one n h k =
    let e : ltb n (2 ^ 53) ≡ false = ground arith in
    let f : ltb (n / 2) (2 ^ 53) ≡ true = ground arith in rw (e, f)

-- A number from 2^53 to 2^54 that is odd is read back as another one.
through_float64_odd : (n : ℕ) → 2 ^ 53 ≤ n → n < 2 ^ 54 → n % 2 ≡ 1 → through_float64 n ≢ n
unfolding through_float64
through_float64_odd n h k odd = rw (excess_one n h k) (λ e. ground arith)

-- A record whose sequence number is odd and from 2^53 to 2^54, and whose other numbers are below 2^53, is
-- read back as another record.
pub unmarshal_json_changes :
    (r old : CheckpointRecord)
    → IsExactRecord (record r { seqno = 0 })
    → 2 ^ 53 ≤ r.seqno
    → r.seqno < 2 ^ 54
    → r.seqno % 2 ≡ 1
    → unmarshal_json (some (to_map r)) old ≢ done (decoded r)
unfolding unmarshal_json to_map as_uint64
unmarshal_json_changes r old h lo hi odd =
    rw
      (
        through_float64_exact r.failover_uuid h.failover_uuid,
        through_float64_exact r.dcp_snapshot_seqno h.dcp_snapshot_seqno,
        through_float64_exact r.dcp_snapshot_end_seqno h.dcp_snapshot_end_seqno,
        through_float64_exact r.target_seqno h.target_seqno,
        opaque_roundtrip r.target_vb_opaque h.target_vb_opaque,
      )
      (λ e. through_float64_odd r.seqno lo hi odd (cc e))
