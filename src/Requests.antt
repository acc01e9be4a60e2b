-- ===== src/Requests.antt =====
-- The requests that the parts of a pipeline hand on: base/types.go, WrappedMCRequest, with the fields of
-- its MCRequest, and big-endian numbers in them.
pub mod Bytes
use goxdcr.Prelude.{ℕ, List}

-- The opcodes of the memcached protocol that the code tells apart.
pub data CommandCode : Type 0 where
  upr_mutation upr_deletion upr_expiration upr_snapshot tap_mutation tap_delete set_with_meta
        delete_with_meta :
      CommandCode
  other_code : ℕ → CommandCode

-- A number that has a width in bits is below the power of two.
pub record McRequest : Type 0 where
  pub seqno : ℕ
  pub opcode : CommandCode
  pub cas : ℕ
  pub opaque : ℕ
  pub vbucket : ℕ
  pub key : List ℕ
  pub extras : List ℕ
  pub body : List ℕ
  pub data_type : ℕ
  pub unique_key : List ℕ
