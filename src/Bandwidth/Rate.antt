-- ===== src/Bandwidth/Rate.antt =====
-- The rate that the throttler enforces, over any sequence of requests and refills, and its limits.
use goxdcr.Prelude.{
  ℕ, suc, ◌+◌, ◌*◌, ◌/◌, ◌^◌, ◌≤◌, ◌<◌, ◌≡◌, refl, false, ◌⊎◌, inl, inr, List, [], ◌∷◌, All, arith,
  Bool-cases,
}
use goxdcr.Prelude.Int64.{
  ℤ, pos, pos_part, neg_part, ◌+ℤ◌, ltb_ℤ, eqb_ℤ, div_pos, +ℤ_parts, div_pos_nonneg, one_part,
  div-le,
}
use goxdcr.CasLoop.{atomically, cas_loop}
use goxdcr.Bandwidth.{Throttler, Grant, zero_ℤ, throttle_pass, throttle, update_pass, update_once}
use goxdcr.Bandwidth.Grants.{IsRequest, IsGrant, atomically-IsGrant}

-- What happens to the quota: a request by `Throttle`, or the timer's `updateOnce`.
pub data Op : Type 0 where
  asks : (n m f : ℕ) → Op
  ticks : Op

module _ (slots limit : ℕ) where
  -- A throttler with this limit and quota; the other fields are not looked at.
  abbrev pub holding : ℤ → Throttler
  holding quota = record {
    number_of_source_nodes = 1;
    overall_bandwidth_limit = pos 0;
    bandwidth_limit = pos limit;
    bandwidth_usage_quota = quota;
  }

  -- The bytes that may be sent, and the new quota.
  unfoldable pub apply : Op → ℤ → ℤ × ℤ
  apply (asks n m f) quota =
      let (g, t) = throttle slots [] (pos n) (pos m) (pos f) (holding quota) in
      (g.bytes_can_send, t.bandwidth_usage_quota)
  apply ticks quota = (pos 0, (update_once slots [] (holding quota)).1.bandwidth_usage_quota)

  unfoldable pub total_sent : List Op → ℤ → ℕ
  total_sent [] quota = 0
  total_sent (op ∷ ops) quota = pos_part (apply op quota).0 + total_sent ops (apply op quota).1

  unfoldable pub final_quota : List Op → ℤ → ℤ
  final_quota [] quota = quota
  final_quota (op ∷ ops) quota = final_quota ops (apply op quota).1

  abbrev pub refills : List Op → ℕ
  refills [] = 0
  refills (asks n m f ∷ ops) = refills ops
  refills (ticks ∷ ops) = suc (refills ops)

  refills-cons : (op : Op) (ops : List Op) → refills (op ∷ ops) ≡ refills (op ∷ []) + refills ops
  refills-cons (asks n m f) ops = omega arith
  refills-cons ticks ops = omega arith

  -- Requests of sizes far from the ends of an int64, with first items of at most `first` bytes.
  abbrev pub IsSized : ℕ → Op → Type 0
  IsSized first (asks n m f) = (n < 2 ^ 62) × (m < 2 ^ 62) × (f ≤ first)
  IsSized first ticks = Unit {0}

  -- At most the limit, and in debt by at most one first item.
  pub record IsBounded (first : ℕ) (quota : ℤ) : Type 0 where
    pub credit : pos_part quota ≤ limit
    pub debt : neg_part quota ≤ first

  module _ (first : ℕ) (pos_slots : 0 < slots) (on : 0 < limit) (small : limit < 2 ^ 61)
      (first_small : first < 2 ^ 61) where
    record Applied (op : Op) (quota : ℤ) (result : ℤ × ℤ) : Type 0 where
      bounded : IsBounded first result.1
      balance :
          pos_part result.1 + pos_part result.0 + neg_part quota
          ≤ pos_part quota + neg_part result.1 + refills (op ∷ []) * (limit / slots)

    tick-Applied : (quota : ℤ) → IsBounded first quota → Applied ticks quota (apply ticks quota)
    unfolding apply update_once update_pass atomically cas_loop
    tick-Applied quota b =
        let d = div_pos_nonneg (pos limit) slots refl in
        let le = div-le limit slots pos_slots in
        let s =
          +ℤ_parts quota (div_pos (pos limit) slots) (omega arith, omega arith)
            (omega arith, omega arith) in
        let o = one_part (quota +ℤ div_pos (pos limit) slots) in
        let p = one_part quota in
        elim (Bool-cases (ltb_ℤ (pos limit) (quota +ℤ div_pos (pos limit) slots))) [
          | inl over ↦ rw over (record { bounded = ground arith; balance = ground arith })
          | inr under ↦ rw under (record { bounded = ground arith; balance = ground arith })
        ]

    ask-IsBounded :
        (n m f : ℕ) (quota : ℤ) (g : Grant) (quota' : ℤ)
        → IsSized first (asks n m f)
        → IsBounded first quota
        → IsGrant slots (pos limit) (pos n) (pos m) (pos f) quota g quota'
        → (pos_part quota' ≡ 0) ⊎ (neg_part quota' ≡ 0)
        → (pos_part quota ≡ 0) ⊎ (neg_part quota ≡ 0)
        → IsBounded first quota'
    ask-IsBounded n m f quota g quota' z b h one two = record {
      credit = omega (arith, h.spent, h.sent_nonneg);
      debt = ground (arith, h.spent, h.sent_nonneg, h.overdraft, h.from_credit);
    }

    ask-eq :
        (n m f : ℕ) (quota : ℤ)
        → apply (asks n m f) quota ≡ (
            let one =
              atomically (throttle_pass slots (pos limit) (pos n) (pos m) (pos f) quota) quota in
            (one.0.bytes_can_send, one.1))
    unfolding apply throttle cas_loop
    ask-eq n m f quota = let e : eqb_ℤ (pos limit) zero_ℤ ≡ false = ground arith in rw e refl

    ask-Applied :
        (n m f : ℕ) (quota : ℤ)
        → IsSized first (asks n m f)
        → IsBounded first quota
        → Applied (asks n m f) quota (apply (asks n m f) quota)
    ask-Applied n m f quota z b =
        let r : IsRequest (pos n) (pos m) (pos f) = record {
          n_nonneg = refl;
          m_nonneg = refl;
          f_nonneg = refl;
          n_small = (z.0, omega arith);
          m_small = (z.1, omega arith);
          f_small = (omega arith, omega arith);
        } in
        let g =
          atomically-IsGrant slots (pos limit) (pos n) (pos m) (pos f) quota r
            (omega arith, omega arith) in
        let one =
          one_part
            (atomically (throttle_pass slots (pos limit) (pos n) (pos m) (pos f) quota) quota).1 in
        let two = one_part quota in
        rw (ask-eq n m f quota) (record {
          bounded = ask-IsBounded n m f quota _ _ z b g one two;
          balance = omega (arith, g.spent);
        })

    apply-Applied :
        (op : Op) (quota : ℤ)
        → IsSized first op
        → IsBounded first quota
        → Applied op quota (apply op quota)
    apply-Applied (asks n m f) quota z b = ask-Applied n m f quota z b
    apply-Applied ticks quota z b = tick-Applied quota b

    total-Applied :
        (ops : List Op) (quota : ℤ)
        → All (IsSized first) ops
        → IsBounded first quota
        → IsBounded first (final_quota ops quota)
          × (pos_part (final_quota ops quota) + total_sent ops quota + neg_part quota
              ≤ pos_part quota + neg_part (final_quota ops quota) + refills ops * (limit / slots))
    unfolding total_sent final_quota
    total-Applied [] quota z b = (b, omega arith)
    total-Applied (op ∷ ops) quota z b =
        let a = apply-Applied op quota z.0 b in
        let rest = total-Applied ops (apply op quota).1 z.1 a.bounded in
        (rest.0, rw (refills-cons op ops) (omega (arith, a.balance, rest.1)))

    -- With at least one slot, throttling on, a limit and first items below 2^61 bytes, other sizes below 2^62, and a
    -- quota within its bounds, which are the limit and a debt of one first item: over any requests and
    -- refills, each made with no one in between, the bytes sent are at most the credit at the start, one
    -- slot's share of the limit for each refill, and one first item; and the quota ends within its
    -- bounds.
    pub total_sent-le :
        (ops : List Op) (quota : ℤ)
        → All (IsSized first) ops
        → IsBounded first quota
        → (total_sent ops quota ≤ pos_part quota + refills ops * (limit / slots) + first)
          × IsBounded first (final_quota ops quota)
    total_sent-le ops quota z b =
        let (bounded, balance) = total-Applied ops quota z b in
        (omega (arith, balance, bounded.debt), bounded)
