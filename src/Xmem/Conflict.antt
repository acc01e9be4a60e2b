-- ===== src/Xmem/Conflict.antt =====
-- parts/xmem_nozzle.go and parts/outgoing_nozzle_common.go: which of two versions of a document wins.
pub mod Order
use Prim.Native.Nat.{bit_and}
use goxdcr.Prelude.{ℕ, Bool, true, false, not, ◌&&◌, ◌||◌, ltb, ◌==◌, if◌then◌else◌}

pub record DocumentMetadata : Type 0 where
  pub rev_seq : ℕ
  pub cas : ℕ
  pub flags : ℕ
  pub expiry : ℕ
  pub deletion : Bool
  pub data_type : ℕ

pub data ConflictResolutionMode : Type 0 where
  cr_mode_rev_id cr_mode_lww : ConflictResolutionMode

abbrev pub has_xattr : ℕ → Bool
has_xattr data_type = ltb 0 (bit_and data_type 0x04)

unfoldable pub resolve_conflict_by_xattr : DocumentMetadata → DocumentMetadata → Bool → Bool
resolve_conflict_by_xattr source target xattr_enabled =
    if xattr_enabled then has_xattr source.data_type && not (has_xattr target.data_type) else false

-- The tests that both modes end with.
unfoldable pub resolve_by_rest : DocumentMetadata → DocumentMetadata → Bool → Bool
resolve_by_rest source target xattr_enabled =
    if source.deletion || ltb source.expiry target.expiry
    then false
    else if target.expiry == source.expiry
    then if ltb source.flags target.flags
      then false
      else if target.flags == source.flags
      then resolve_conflict_by_xattr source target xattr_enabled
      else true
    else true

unfoldable pub resolve_conflict_by_cas : DocumentMetadata → DocumentMetadata → Bool → Bool
resolve_conflict_by_cas source target xattr_enabled =
    if ltb source.cas target.cas
    then false
    else if target.cas == source.cas
    then if ltb source.rev_seq target.rev_seq
      then false
      else if target.rev_seq == source.rev_seq
      then resolve_by_rest source target xattr_enabled
      else true
    else true

unfoldable pub resolve_conflict_by_rev_seq : DocumentMetadata → DocumentMetadata → Bool → Bool
resolve_conflict_by_rev_seq source target xattr_enabled =
    if ltb source.rev_seq target.rev_seq
    then false
    else if target.rev_seq == source.rev_seq
    then if ltb source.cas target.cas
      then false
      else if target.cas == source.cas
      then resolve_by_rest source target xattr_enabled
      else true
    else true

-- Whether the source's version wins.
unfoldable pub resolve_conflict :
    DocumentMetadata → DocumentMetadata → ConflictResolutionMode → Bool → Bool
resolve_conflict source target cr_mode_lww xattr_enabled =
    resolve_conflict_by_cas source target xattr_enabled
resolve_conflict source target cr_mode_rev_id xattr_enabled =
    resolve_conflict_by_rev_seq source target xattr_enabled
