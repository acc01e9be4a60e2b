-- ===== src/Checkpoint.antt =====
-- metadata/checkpoint.go: checkpoint records, their comparison, and the document that keeps the newest
-- records of a vbucket. `Decode` reads records back from JSON.
pub mod Decode
pub mod Records
pub mod Roundtrip
use goxdcr.Prelude.{
  ℕ, zero, suc, ◌+◌, ◌-◌, Bool, true, false, not, ◌&&◌, Option, none, some, List, [], ◌∷◌, ◌++◌,
  Outcome, done, panics, ◌>>=◌, or_panic, ltb, leb, ◌==◌, if◌then◌else◌, length, get_elem?, take,
  replicate,
}
use Prim.Native.String.{String}
use text.Mathlib.Text.{◌==◌ as str_eq}

-- The three concrete types of a TargetVBOpaque; a nil interface is `none`.
pub data TargetVbOpaque : Type 0 where
  target_vb_uuid : ℕ → TargetVbOpaque
  target_vb_uuid_str : String → TargetVbOpaque
  target_vb_uuid_and_timestamp : String → String → TargetVbOpaque

-- The three `IsSame` methods, by the receiver's type.
unfoldable pub opaque_is_same : TargetVbOpaque → Option TargetVbOpaque → Bool
opaque_is_same (target_vb_uuid u) (some (target_vb_uuid v)) = u == v
opaque_is_same (target_vb_uuid_str u) (some (target_vb_uuid_str v)) = str_eq u v
opaque_is_same (target_vb_uuid_and_timestamp u s) (some (target_vb_uuid_and_timestamp v t)) =
    str_eq u v && str_eq s t
opaque_is_same _ _ = false

pub record CheckpointRecord : Type 0 where
  pub failover_uuid : ℕ
  pub seqno : ℕ
  pub dcp_snapshot_seqno : ℕ
  pub dcp_snapshot_end_seqno : ℕ
  pub target_vb_opaque : Option TargetVbOpaque
  pub target_seqno : ℕ

-- The call of a method on a nil interface panics.
abbrev pub opaque_same_or_panic : Option TargetVbOpaque → Option TargetVbOpaque → Outcome Bool
opaque_same_or_panic none b = panics
opaque_same_or_panic (some a) b = done (opaque_is_same a b)

-- `IsSame` on two records that are there; `&&` calls the opaque's method only if the four numbers before
-- it agree.
unfoldable pub records_same : CheckpointRecord → CheckpointRecord → Outcome Bool
records_same a b =
    if a.failover_uuid == b.failover_uuid
      && (a.seqno == b.seqno
          && (a.dcp_snapshot_seqno == b.dcp_snapshot_seqno
              && a.dcp_snapshot_end_seqno == b.dcp_snapshot_end_seqno))
    then (opaque_same_or_panic a.target_vb_opaque b.target_vb_opaque >>= λ same.
        done (same && a.target_seqno == b.target_seqno))
    else done false

unfoldable pub is_same : Option CheckpointRecord → Option CheckpointRecord → Outcome Bool
is_same none (some b) = done false
is_same (some a) none = done false
is_same none none = done true
is_same (some a) (some b) = records_same a b

-- The revision of the document stays with the metadata store.
pub record CheckpointsDoc : Type 0 where
  pub checkpoint_records : List (Option CheckpointRecord)
  pub xattr_seqno : ℕ
  pub target_cluster_version : ℕ
  pub spec_internal_id : String

-- A write through an index; out of range it panics, and the model keeps the list.
abbrev pub set {ℓ} : {A : Type ℓ} → List A → ℕ → A → List A
set [] i v = []
set (x ∷ xs) zero v = v ∷ xs
set (x ∷ xs) (suc i) v = x ∷ set xs i v

-- The loop that moves the records at i - 1, .., 0 one place up.
unfoldable pub move_up :
    ℕ → List (Option CheckpointRecord) → Outcome (List (Option CheckpointRecord))
move_up zero records = done records
move_up (suc i) records =
    or_panic (get_elem? records i) >>= λ record_i. move_up i (set records (suc i) record_i)

module _ (max_records_to_keep : ℕ) where
  unfoldable pub new_checkpoints_doc : String → CheckpointsDoc
  new_checkpoints_doc spec_internal_id = record {
    checkpoint_records = replicate max_records_to_keep none;
    xattr_seqno = 0;
    target_cluster_version = 0;
    spec_internal_id = spec_internal_id;
  }

  -- Cut to the number of records to keep, or filled up with nil records.
  unfoldable pub resize : List (Option CheckpointRecord) → List (Option CheckpointRecord)
  resize records =
      if ltb max_records_to_keep (length records)
      then take max_records_to_keep records
      else if ltb (length records) max_records_to_keep
      then records ++ replicate (max_records_to_keep - length records) none
      else records

  -- The record in front, after the others have moved up; the last one is written over.
  unfoldable pub put_first :
      Option CheckpointRecord
      → List (Option CheckpointRecord)
      → Outcome (List (Option CheckpointRecord))
  put_first r records = move_up (length records - 1) records >>= λ moved. elim moved [
    | [] ↦ panics
    | x ∷ rest ↦ done (r ∷ rest)
  ]

  add_to :
      Option CheckpointRecord
      → List (Option CheckpointRecord)
      → Outcome (Bool × List (Option CheckpointRecord))
  add_to r [] = done (true, r ∷ [])
  add_to r (newest ∷ older) = is_same newest r >>= λ same.
      if same
      then done (false, newest ∷ older)
      else (put_first r (resize (newest ∷ older)) >>= λ records. done (true, records))

  -- Whether the record was added, and the document.
  unfoldable pub add_record :
      Option CheckpointRecord → CheckpointsDoc → Outcome (Bool × CheckpointsDoc)
  unfolding add_to
  add_record r doc = add_to r doc.checkpoint_records >>= λ (added, records).
      done (added, record doc { checkpoint_records = records })

unfoldable pub get_checkpoint_records : ℕ → CheckpointsDoc → List (Option CheckpointRecord)
get_checkpoint_records max_records_to_read doc =
    if leb (length doc.checkpoint_records) max_records_to_read
    then doc.checkpoint_records
    else take max_records_to_read doc.checkpoint_records
