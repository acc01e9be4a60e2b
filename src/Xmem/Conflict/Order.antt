-- ===== src/Xmem/Conflict/Order.antt =====
-- The versions of a document stand in a strict order.
use goxdcr.Prelude.{ℕ, ◌<◌, ◌≡◌, ◌⊎◌, ◌↔◌, inl, inr, Bool, true, false, arith, Bool-cases}
use goxdcr.Xmem.Conflict.{
  DocumentMetadata, ConflictResolutionMode, cr_mode_rev_id, cr_mode_lww, has_xattr,
  resolve_conflict_by_xattr, resolve_by_rest, resolve_conflict_by_cas, resolve_conflict_by_rev_seq,
  resolve_conflict,
}

-- Equal cas and revision: the source's version is not a deletion, and the larger expiry decides, then
-- the larger flags, then extended attributes that only the source has.
abbrev pub BeatsByRest : Bool → DocumentMetadata → DocumentMetadata → Type 0
BeatsByRest xattr s t =
    (s.deletion ≡ false)
    × ((t.expiry < s.expiry)
        ⊎ ((t.expiry ≡ s.expiry)
            × ((t.flags < s.flags)
                ⊎ ((t.flags ≡ s.flags)
                    × (xattr ≡ true)
                    × (has_xattr s.data_type ≡ true)
                    × (has_xattr t.data_type ≡ false)))))

-- The order that a mode stands for: two numbers of the versions, the more important one first.
abbrev pub first_key : ConflictResolutionMode → DocumentMetadata → ℕ
first_key cr_mode_lww d = d.cas
first_key cr_mode_rev_id d = d.rev_seq

abbrev pub second_key : ConflictResolutionMode → DocumentMetadata → ℕ
second_key cr_mode_lww d = d.rev_seq
second_key cr_mode_rev_id d = d.cas

abbrev pub Beats : ConflictResolutionMode → Bool → DocumentMetadata → DocumentMetadata → Type 0
Beats mode xattr s t =
    (first_key mode t < first_key mode s)
    ⊎ ((first_key mode t ≡ first_key mode s)
        × ((second_key mode t < second_key mode s)
            ⊎ ((second_key mode t ≡ second_key mode s) × BeatsByRest xattr s t)))

xattr_iff :
    (s t : DocumentMetadata) (xattr : Bool)
    → (resolve_conflict_by_xattr s t xattr ≡ true)
      ↔ ((xattr ≡ true) × (has_xattr s.data_type ≡ true) × (has_xattr t.data_type ≡ false))
unfolding resolve_conflict_by_xattr
xattr_iff s t xattr = ground arith

rest_iff :
    (s t : DocumentMetadata) (xattr : Bool)
    → (resolve_by_rest s t xattr ≡ true) ↔ BeatsByRest xattr s t
unfolding resolve_by_rest
rest_iff s t xattr = ground (arith, xattr_iff s t xattr)

-- The source's version wins exactly when it is the larger one: by cas and then revision, or by revision
-- and then cas, as the mode says; of versions that agree in both, a deletion never wins, and expiry,
-- flags and extended attributes decide.
pub resolve_conflict_iff :
    (mode : ConflictResolutionMode) (xattr : Bool) (s t : DocumentMetadata)
    → (resolve_conflict s t mode xattr ≡ true) ↔ Beats mode xattr s t
unfolding resolve_conflict resolve_conflict_by_cas resolve_conflict_by_rev_seq
resolve_conflict_iff cr_mode_lww xattr s t = ground (arith, rest_iff s t xattr)
resolve_conflict_iff cr_mode_rev_id xattr s t = ground (arith, rest_iff s t xattr)

Beats-trans :
    (mode : ConflictResolutionMode) (xattr : Bool) (a b c : DocumentMetadata)
    → Beats mode xattr a b
    → Beats mode xattr b c
    → Beats mode xattr a c
Beats-trans mode xattr a b c p q = ground arith

Beats-irrefl :
    (mode : ConflictResolutionMode) (xattr : Bool) (a : DocumentMetadata) → ¬ Beats mode xattr a a
Beats-irrefl mode xattr a p = ground arith

-- Of two versions that replicate to each other exactly one wins, so that neither is sent back and forth,
-- unless both sides keep their own, which then agree in cas and revision.
pub resolve_conflict_cases :
    (mode : ConflictResolutionMode) (xattr : Bool) (a b : DocumentMetadata)
    → ((resolve_conflict a b mode xattr ≡ true) × (resolve_conflict b a mode xattr ≡ false))
      ⊎ (((resolve_conflict a b mode xattr ≡ false) × (resolve_conflict b a mode xattr ≡ true))
          ⊎ ((resolve_conflict a b mode xattr ≡ false)
              × (resolve_conflict b a mode xattr ≡ false)
              × (a.cas ≡ b.cas)
              × (a.rev_seq ≡ b.rev_seq)))
resolve_conflict_cases mode xattr a b =
    let p = resolve_conflict_iff mode xattr a b in
    let q = resolve_conflict_iff mode xattr b a in
    elim (Bool-cases (resolve_conflict a b mode xattr)) [
      | inl w ↦ elim (Bool-cases (resolve_conflict b a mode xattr)) [
        | inl v ↦ absurd (Beats-irrefl mode xattr a (Beats-trans mode xattr a b a (p.0 w) (q.0 v)))
        | inr l ↦ inl (w, l)
      ]
      | inr l ↦ elim (Bool-cases (resolve_conflict b a mode xattr)) [
        | inl w ↦ inr (inl (l, w))
        | inr m ↦ let s = same mode p q l m in inr (inr (l, m, s.0, s.1))
      ]
    ]
  where
    same :
        (mo : ConflictResolutionMode)
        → (resolve_conflict a b mo xattr ≡ true) ↔ Beats mo xattr a b
        → (resolve_conflict b a mo xattr ≡ true) ↔ Beats mo xattr b a
        → resolve_conflict a b mo xattr ≡ false
        → resolve_conflict b a mo xattr ≡ false
        → (a.cas ≡ b.cas) × (a.rev_seq ≡ b.rev_seq)
    same cr_mode_lww p q l m = ground arith
    same cr_mode_rev_id p q l m = ground arith

-- A version that wins over one that wins over a third wins over the third.
pub resolve_conflict_trans :
    (mode : ConflictResolutionMode) (xattr : Bool) (a b c : DocumentMetadata)
    → resolve_conflict a b mode xattr ≡ true
    → resolve_conflict b c mode xattr ≡ true
    → resolve_conflict a c mode xattr ≡ true
resolve_conflict_trans mode xattr a b c p q = (resolve_conflict_iff mode xattr a c).1 (
    Beats-trans mode xattr a b c ((resolve_conflict_iff mode xattr a b).0 p)
      ((resolve_conflict_iff mode xattr b c).0 q))
