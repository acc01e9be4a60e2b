-- ===== src/Router.antt =====
-- parts/router.go and connector/router.go: the router that turns the mutations of DCP into requests and
-- hands each to the part that serves its vbucket.
pub mod Extras
pub mod Routes
use Prim.Native.Nat.{bit_and, bit_or}
use goxdcr.Prelude.{
  ℕ, Bool, true, false, not, ◌&&◌, ◌||◌, Option, none, some, List, [], ◌∷◌, ◌++◌, ltb, leb, ◌==◌,
  if◌then◌else◌, length, replicate, Outcome, done, panics, ◌>>=◌,
}
use goxdcr.Requests.{
  CommandCode, upr_mutation, upr_deletion, upr_expiration, upr_snapshot, McRequest,
}
use goxdcr.Requests.Bytes.{slice, put_bytes, be_uint32, be_uint64}
use goxdcr.Xmem.Conflict.{ConflictResolutionMode, cr_mode_lww, cr_mode_rev_id}

-- The fields of a UprEvent that the router reads.
pub record UprEvent : Type 0 where
  pub opcode : CommandCode
  pub vbucket : ℕ
  pub key : List ℕ
  pub value : List ℕ
  pub flags : ℕ
  pub expiry : ℕ
  pub rev_seqno : ℕ
  pub cas : ℕ
  pub seqno : ℕ
  pub snapstart_seq : ℕ
  pub snapend_seq : ℕ
  pub snapshot_type : ℕ
  pub data_type : ℕ

-- The extras of a request that may have been used before, of the size that is needed.
unfoldable pub sized : ℕ → List ℕ → List ℕ
sized size extras = if length extras == size then extras else replicate size 0

abbrev pub is_lww : ConflictResolutionMode → Bool
is_lww cr_mode_lww = true
is_lww cr_mode_rev_id = false

abbrev pub is_expiration : CommandCode → Bool
is_expiration upr_expiration = true
is_expiration _ = false

-- FORCE_ACCEPT_WITH_META_OPS and IS_EXPIRATION.
abbrev pub options_of : ConflictResolutionMode → CommandCode → ℕ
options_of mode opcode =
    bit_or (if is_lww mode then 0x02 else 0) (if is_expiration opcode then 0x10 else 0)

-- The four numbers that every mutation has.
unfoldable pub put_metadata : UprEvent → List ℕ → Outcome (List ℕ)
put_metadata event extras = put_bytes 0 (be_uint32 event.flags) extras >>= λ a.
    put_bytes 4 (be_uint32 event.expiry) a >>= λ b.
    put_bytes 8 (be_uint64 event.rev_seqno) b >>= λ c. put_bytes 16 (be_uint64 event.cas) c

unfoldable pub mutation_extras : ConflictResolutionMode → UprEvent → List ℕ → Outcome (List ℕ)
mutation_extras mode event extras =
    let size = if is_lww mode || is_expiration event.opcode then 28 else 24 in
    let options = options_of mode event.opcode in
    put_metadata event (sized size extras) >>= λ written.
    if ltb 0 options then put_bytes 24 (be_uint32 options) written else done written

unfoldable pub snapshot_extras : UprEvent → List ℕ → Outcome (List ℕ)
snapshot_extras event extras = put_bytes 0 (be_uint64 event.seqno) (sized 28 extras) >>= λ a.
    put_bytes 8 (be_uint64 event.snapstart_seq) a >>= λ b.
    put_bytes 16 (be_uint64 event.snapend_seq) b >>= λ c.
    put_bytes 24 (be_uint32 event.snapshot_type) c

unfoldable pub extras_for : ConflictResolutionMode → UprEvent → List ℕ → Outcome (List ℕ)
extras_for mode event extras = elim event.opcode [
  | upr_mutation ↦ mutation_extras mode event extras
  | upr_deletion ↦ mutation_extras mode event extras
  | upr_expiration ↦ mutation_extras mode event extras
  | upr_snapshot ↦ snapshot_extras event extras
  | _ ↦ done extras
]

-- `ComposeMCRequest`, on the request that `newWrappedMCRequest` gives.
unfoldable pub compose_mc_request :
    ConflictResolutionMode → McRequest → UprEvent → Outcome McRequest
compose_mc_request mode wrapped_req event = extras_for mode event wrapped_req.extras >>= λ extras.
    slice extras 8 8 >>= λ rev. done (record {
      seqno = event.seqno;
      opcode = event.opcode;
      cas = event.cas;
      opaque = 0;
      vbucket = event.vbucket;
      key = event.key;
      extras = extras;
      body = event.value;
      data_type = event.data_type;
      unique_key = event.key ++ rev;
    })
