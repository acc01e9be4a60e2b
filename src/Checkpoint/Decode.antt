-- ===== src/Checkpoint/Decode.antt =====
-- metadata/checkpoint.go, UnmarshalJSON, UnmarshalTargetVBOpaque and ToMap, with the float64 that Go's
-- encoding/json makes of every number.
use goxdcr.Prelude.{
  ℕ, zero, suc, ◌+◌, ◌*◌, ◌/◌, ◌%◌, ◌^◌, ◌&&◌, ◌||◌, Option, none, some, List, [], ◌∷◌, Outcome,
  done, panics, ◌>>=◌, ltb, ◌==◌, if◌then◌else◌, length,
}
use Prim.Native.String.{String}
use text.Mathlib.Text.{◌==◌ as str_eq}
use goxdcr.Checkpoint.{
  TargetVbOpaque, target_vb_uuid, target_vb_uuid_str, target_vb_uuid_and_timestamp,
  CheckpointRecord,
}

-- The values that occur in a record's JSON. A number is the integer that the text spells.
pub data Scalar : Type 0 where
  number : ℕ → Scalar
  string_value : String → Scalar

pub data Json : Type 0 where
  null : Json
  scalar : Scalar → Json
  object : List (String × Scalar) → Json

-- A map with string keys.
pub lookup {ℓ} : {V : Type ℓ} → String → List (String × V) → Option V
lookup k [] = none
lookup k ((j, v) ∷ rest) = if str_eq j k then some v else lookup k rest

-- By how many bits a number is too long for the 53 of a float64.
unfoldable pub excess_bits : ℕ → ℕ → ℕ
excess_bits zero n = 0
excess_bits (suc fuel) n =
    let rest = excess_bits fuel (n / 2) in if ltb n (2 ^ 53) then 0 else suc rest

-- The integer nearest to n that a float64 holds, the even one of two: `uint64(float64(n))`. A uint64 is
-- at most 11 bits too long.
unfoldable pub through_float64 : ℕ → ℕ
through_float64 n =
    let unit = 2 ^ excess_bits 12 n in
    let q = n / unit in
    let up = ltb (unit / 2) (n % unit) || ((n % unit == unit / 2) && (q % 2 == 1)) in
    if unit == 1 then n else if up then (q + 1) * unit else q * unit

-- `uint64(x.(float64))`
unfoldable pub as_uint64 : Json → Outcome ℕ
as_uint64 (scalar (number n)) = done (through_float64 n)
as_uint64 _ = panics

pub data Decoded {ℓ} (A : Type ℓ) : Type ℓ where
  decoded : A → Decoded A
  unmarshal_error : Decoded A

uuid_of : Option Scalar → Decoded (Option TargetVbOpaque)
uuid_of (some (number n)) = decoded (some (target_vb_uuid (through_float64 n)))
uuid_of (some (string_value s)) = decoded (some (target_vb_uuid_str s))
uuid_of none = unmarshal_error

uuid_and_timestamp_of : Option Scalar → Option Scalar → Decoded (Option TargetVbOpaque)
uuid_and_timestamp_of (some (string_value u)) (some (string_value s)) =
    decoded (some (target_vb_uuid_and_timestamp u s))
uuid_and_timestamp_of _ _ = unmarshal_error

unfoldable pub unmarshal_target_vb_opaque : Json → Decoded (Option TargetVbOpaque)
unfolding uuid_of uuid_and_timestamp_of lookup
unmarshal_target_vb_opaque null = decoded none
unmarshal_target_vb_opaque (scalar s) = unmarshal_error
unmarshal_target_vb_opaque (object fields) =
    if length fields == 1
    then uuid_of (lookup "target_vb_uuid" fields)
    else if length fields == 2
    then uuid_and_timestamp_of (lookup "target_vb_uuid" fields) (lookup "startup_time" fields)
    else unmarshal_error

-- A field that is not there keeps its value.
uint64_field : ℕ → Option Json → Outcome ℕ
uint64_field old none = done old
uint64_field old (some j) = as_uint64 j

opaque_field : Option TargetVbOpaque → Option Json → Decoded (Option TargetVbOpaque)
opaque_field old none = decoded old
opaque_field old (some j) = unmarshal_target_vb_opaque j

finish_record : CheckpointRecord → Decoded (Option TargetVbOpaque) → Decoded CheckpointRecord
finish_record r unmarshal_error = unmarshal_error
finish_record r (decoded opaque) = decoded (record r { target_vb_opaque = opaque })

-- `some` has the fields of an object; the text `null`, which Go decodes to a map with no entry, is
-- `some []`. `none` is any other text.
unfoldable pub unmarshal_json :
    Option (List (String × Json)) → CheckpointRecord → Outcome (Decoded CheckpointRecord)
unfolding uint64_field opaque_field finish_record lookup
unmarshal_json none r = done unmarshal_error
unmarshal_json (some fields) r =
    uint64_field r.failover_uuid (lookup "failover_uuid" fields) >>= (λ failover_uuid.
      uint64_field r.seqno (lookup "seqno" fields) >>= λ seqno.
      uint64_field r.dcp_snapshot_seqno (lookup "dcp_snapshot_seqno" fields)
      >>= λ dcp_snapshot_seqno.
          uint64_field r.dcp_snapshot_end_seqno (lookup "dcp_snapshot_end_seqno" fields)
          >>= λ dcp_snapshot_end_seqno.
              uint64_field r.target_seqno (lookup "target_seqno" fields) >>= λ target_seqno. done (
                finish_record
                  (record {
                    failover_uuid = failover_uuid;
                    seqno = seqno;
                    dcp_snapshot_seqno = dcp_snapshot_seqno;
                    dcp_snapshot_end_seqno = dcp_snapshot_end_seqno;
                    target_vb_opaque = r.target_vb_opaque;
                    target_seqno = target_seqno;
                  })
                  (opaque_field r.target_vb_opaque (lookup "target_vb_opaque" fields))))

-- What encoding/json writes for an opaque, by the tags of its type.
unfoldable pub marshal_opaque : Option TargetVbOpaque → Json
marshal_opaque none = null
marshal_opaque (some (target_vb_uuid u)) = object (("target_vb_uuid", number u) ∷ [])
marshal_opaque (some (target_vb_uuid_str u)) = object (("target_vb_uuid", string_value u) ∷ [])
marshal_opaque (some (target_vb_uuid_and_timestamp u s)) =
    object (("target_vb_uuid", string_value u) ∷ ("startup_time", string_value s) ∷ [])

abbrev json_number : ℕ → Json
json_number n = scalar (number n)

-- The fields of a record, by their tags, as in `ToMap`.
unfoldable pub to_map : CheckpointRecord → List (String × Json)
to_map r =
    ("failover_uuid", json_number r.failover_uuid)
    ∷ ("seqno", json_number r.seqno)
    ∷ ("dcp_snapshot_seqno", json_number r.dcp_snapshot_seqno)
    ∷ ("dcp_snapshot_end_seqno", json_number r.dcp_snapshot_end_seqno)
    ∷ ("target_vb_opaque", marshal_opaque r.target_vb_opaque)
    ∷ ("target_seqno", json_number r.target_seqno)
    ∷ []
