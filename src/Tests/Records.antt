-- ===== src/Tests/Records.antt =====
-- metadata/checkpoint.go on two records.
use goxdcr.Prelude.{
  ℕ, ◌^◌, ◌<◌, ◌≡◌, ◌≢◌, refl, true, false, none, some, [], ◌∷◌, done, arith, if◌then◌else◌,
}
use goxdcr.Checkpoint.{
  CheckpointRecord, CheckpointsDoc, target_vb_uuid, opaque_is_same, records_same, is_same,
  add_record,
}
use goxdcr.Checkpoint.Decode.{decoded, unmarshal_json, to_map}
use goxdcr.Checkpoint.Records.{padded, add_record_lem}
use goxdcr.Checkpoint.Roundtrip.{IsExactRecord, unmarshal_json-to_map, unmarshal_json_changes}

abbrev at_seqno : ℕ → CheckpointRecord
at_seqno n = record {
  failover_uuid = 7;
  seqno = n;
  dcp_snapshot_seqno = 2;
  dcp_snapshot_end_seqno = 9;
  target_vb_opaque = some (target_vb_uuid 5);
  target_seqno = 4;
}

abbrev one_record : CheckpointsDoc
one_record = record {
  checkpoint_records = some (at_seqno 3) ∷ none ∷ [];
  xattr_seqno = 1;
  target_cluster_version = 0;
  spec_internal_id = "spec";
}

not_same : is_same (some (at_seqno 3)) (some (at_seqno 8)) ≡ done false
unfolding is_same records_same opaque_is_same
not_same = refl

add_record_lem_example :
    add_record 2 (some (at_seqno 8)) one_record
    ≡ done (
        if false then (false, one_record) else (
          true,
          record one_record {
            checkpoint_records = padded 2 (some (at_seqno 8) ∷ some (at_seqno 3) ∷ none ∷ []);
          },
        ))
add_record_lem_example =
    add_record_lem 1 (some (at_seqno 8)) (some (at_seqno 3)) (none ∷ []) one_record false refl
      not_same

exact : (n : ℕ) → n < 2 ^ 53 → IsExactRecord (at_seqno n)
exact n h = record {
  failover_uuid = omega arith;
  seqno = h;
  dcp_snapshot_seqno = omega arith;
  dcp_snapshot_end_seqno = omega arith;
  target_vb_opaque = omega arith;
  target_seqno = omega arith;
}

unmarshal_json-to_map_example :
    unmarshal_json (some (to_map (at_seqno 8))) (at_seqno 3) ≡ done (decoded (at_seqno 8))
unmarshal_json-to_map_example =
    unmarshal_json-to_map (at_seqno 8) (at_seqno 3) (exact 8 (omega arith))

unmarshal_json_changes_example :
    unmarshal_json (some (to_map (at_seqno 9007199254740993))) (at_seqno 3)
    ≢ done (decoded (at_seqno 9007199254740993))
unmarshal_json_changes_example =
    unmarshal_json_changes (at_seqno 9007199254740993) (at_seqno 3) (exact 0 (omega arith))
      (omega arith) (omega arith) (omega arith)
