-- ===== src/Throughput/Tokens.antt =====
-- What the throttler lets low priority replications send.
use Prim.Native.Nat.{min}
use goxdcr.Prelude.{
  ap, ℕ, zero, suc, ◌+◌, ◌≡◌, refl, ◌⊎◌, inl, inr, Bool, true, false, List, [], ◌∷◌, arith,
  if◌then◌else◌, Bool-cases,
}
use goxdcr.Prelude.Int64.{
  ℤ, pos_part, neg_part, ◌-ℤ◌, ◌≤ℤ◌, ◌<ℤ◌, ltb_ℤ, eqb_ℤ, IsSmall, -ℤ_parts, one_part, eqb→eq,
}
use goxdcr.Throughput.{
  Throttler, Meanwhile, at_limit, at_quota, at_reassigned, zero_ℤ, one_ℤ, can_send_low,
}

-- No one interferes.
abbrev pub calm : Meanwhile
calm = record {
  before_limit = λ t. t;
  before_quota = λ t. t;
  before_reassigned = λ t. t;
  before_swap = λ t. t;
}

-- The pass that comes next, which may be the one past the end of the list.
abbrev pub next : List Meanwhile → Meanwhile
next [] = calm
next (m ∷ ms) = m

-- From a state to another with the passes in between, which found a quota or reassigned tokens and lost
-- them to others, and wrote nothing.
pub data ByOthers : List Meanwhile → Throttler → List Meanwhile → Throttler → Type 0 where
  no_pass : {ms : List Meanwhile} {t : Throttler} → ByOthers ms t ms t
  lost_quota :
      {m : Meanwhile} {ms rest : List Meanwhile} {t u : Throttler}
      → ByOthers ms (m.before_swap (at_quota m t)) rest u
      → ByOthers (m ∷ ms) t rest u
  lost_reassigned :
      {m : Meanwhile} {ms rest : List Meanwhile} {t u : Throttler}
      → ByOthers ms (m.before_swap (at_reassigned m t)) rest u
      → ByOthers (m ∷ ms) t rest u

-- The ways in which the last pass for a low priority mutation may end.
pub data LowEnd (m : Meanwhile) (t : Throttler) (r : Bool × Throttler) : Type 0 where
  unlimited :
      r.0 ≡ true
      → eqb_ℤ (at_limit m t).throughput_limit zero_ℤ ≡ true
      → r.1 ≡ at_limit m t
      → LowEnd m t r
  from_quota :
      r.0 ≡ true
      → eqb_ℤ (at_limit m t).throughput_limit zero_ℤ ≡ false
      → (let now = m.before_swap (at_quota m t) in
          (zero_ℤ <ℤ now.throughput_quota)
          × (r.1 ≡ record now { throughput_quota = now.throughput_quota -ℤ one_ℤ }))
      → LowEnd m t r
  from_reassigned :
      r.0 ≡ true
      → eqb_ℤ (at_limit m t).throughput_limit zero_ℤ ≡ false
      → (at_quota m t).throughput_quota ≤ℤ zero_ℤ
      → (let now = m.before_swap (at_reassigned m t) in
          (zero_ℤ <ℤ now.reassigned_high_tokens)
          × (r.1 ≡ record now { reassigned_high_tokens = now.reassigned_high_tokens -ℤ one_ℤ }))
      → LowEnd m t r
  refused :
      r.0 ≡ false
      → eqb_ℤ (at_limit m t).throughput_limit zero_ℤ ≡ false
      → (at_quota m t).throughput_quota ≤ℤ zero_ℤ
      → (at_reassigned m t).reassigned_high_tokens ≤ℤ zero_ℤ
      → r.1 ≡ at_reassigned m t
      → LowEnd m t r

abbrev pub LowResult : List Meanwhile → Throttler → Bool × Throttler → Type 0
LowResult ms t r =
    (rest : List Meanwhile) × (u : Throttler) × ByOthers ms t rest u × LowEnd (next rest) u r

-- Whatever other goroutines do meanwhile, a call for a low priority mutation writes nothing before its
-- last pass, and that ends in one of four ways: throttling is off and it may be sent; or it may be sent
-- for exactly one token of the quota, taken off what the quota then is; or, when the quota that it loaded
-- had none, for exactly one of the reassigned tokens, taken off what they then are; or neither that it
-- loaded had any, and it may not, with nothing written.
pub can_send_low-LowResult :
    (ms : List Meanwhile) (t : Throttler) → LowResult ms t (can_send_low ms t)
unfolding can_send_low
can_send_low-LowResult [] t = elim (Bool-cases (eqb_ℤ t.throughput_limit zero_ℤ)) [
  | inl off ↦ ([], t, no_pass, rw off (unlimited refl off refl))
  | inr on ↦ elim (Bool-cases (ltb_ℤ zero_ℤ t.throughput_quota)) [
    | inl q ↦ ([], t, no_pass, rw (on, q) (from_quota refl on (ground arith, refl)))
    | inr no_q ↦ elim (Bool-cases (ltb_ℤ zero_ℤ t.reassigned_high_tokens)) [
      | inl r ↦ (
        [],
        t,
        no_pass,
        rw (on, no_q, r) (from_reassigned refl on (ground arith) (ground arith, refl)),
      )
      | inr no_r ↦
          ([], t, no_pass, rw (on, no_q, no_r) (refused refl on (ground arith) (ground arith) refl))
    ]
  ]
]
can_send_low-LowResult (m ∷ ms) t =
    let quota = (at_quota m t).throughput_quota in
    let reassigned = (at_reassigned m t).reassigned_high_tokens in
    let now_q = m.before_swap (at_quota m t) in
    let now_r = m.before_swap (at_reassigned m t) in
    elim (Bool-cases (eqb_ℤ (at_limit m t).throughput_limit zero_ℤ)) [
      | inl off ↦ (m ∷ ms, t, no_pass, rw (off, can_send_low) (unlimited refl off refl))
      | inr on ↦ elim (Bool-cases (ltb_ℤ zero_ℤ quota)) [
        | inl q ↦ elim (Bool-cases (eqb_ℤ now_q.throughput_quota quota)) [
          | inl same ↦
              let e = eqb→eq now_q.throughput_quota quota same in
              (
                m ∷ ms,
                t,
                no_pass,
                rw (on, q, same, can_send_low) (from_quota refl on (ground arith, rw e refl)),
              )
          | inr changed ↦
              let (rest, u, b, last) = can_send_low-LowResult ms now_q in
              (rest, u, lost_quota b, rw (on, q, changed, can_send_low) last)
        ]
        | inr no_q ↦ elim (Bool-cases (ltb_ℤ zero_ℤ reassigned)) [
          | inl r ↦ elim (Bool-cases (eqb_ℤ now_r.reassigned_high_tokens reassigned)) [
            | inl same ↦
                let e = eqb→eq now_r.reassigned_high_tokens reassigned same in
                (
                  m ∷ ms,
                  t,
                  no_pass,
                  rw (on, no_q, r, same, can_send_low)
                      (from_reassigned refl on (ground arith) (ground arith, rw e refl)),
                )
            | inr changed ↦
                let (rest, u, b, last) = can_send_low-LowResult ms now_r in
                (rest, u, lost_reassigned b, rw (on, no_q, r, changed, can_send_low) last)
          ]
          | inr no_r ↦ (
            m ∷ ms,
            t,
            no_pass,
            rw (on, no_q, no_r, can_send_low) (refused refl on (ground arith) (ground arith) refl),
          )
        ]
      ]
    ]

-- How many of n requests in a row are let through, and the state after them.
unfoldable pub accepted : ℕ → Throttler → ℕ × Throttler
accepted zero t = (0, t)
accepted (suc n) t =
    let (ok, u) = can_send_low [] t in let (k, v) = accepted n u in (if ok then suc k else k, v)

abbrev pub tokens : Throttler → ℕ
tokens t = pos_part t.throughput_quota + pos_part t.reassigned_high_tokens

dec_parts :
    (a : ℤ)
    → IsSmall a
    → zero_ℤ <ℤ a
    → (pos_part (a -ℤ one_ℤ) + 1 ≡ pos_part a) × (neg_part (a -ℤ one_ℤ) ≡ 0)
dec_parts a s p =
    let e = -ℤ_parts a one_ℤ s (omega arith, omega arith) in
    let o = one_part a in let q = one_part (a -ℤ one_ℤ) in (ground arith, ground arith)

pub record IsOn (t : Throttler) : Type 0 where
  pub limited : eqb_ℤ t.throughput_limit zero_ℤ ≡ false
  pub quota_small : IsSmall t.throughput_quota
  pub reassigned_small : IsSmall t.reassigned_high_tokens

one_request :
    (t : Throttler)
    → IsOn t
    → IsOn (can_send_low [] t).1
      × (((can_send_low [] t).0 ≡ true) × (tokens (can_send_low [] t).1 + 1 ≡ tokens t)
          ⊎ ((can_send_low [] t).0 ≡ false) × (tokens t ≡ 0) × ((can_send_low [] t).1 ≡ t))
unfolding can_send_low
one_request t v = elim (Bool-cases (ltb_ℤ zero_ℤ t.throughput_quota)) [
  | inl q ↦
      let d = dec_parts t.throughput_quota v.quota_small (ground arith) in
      rw (v.limited, q)
        (
          record {
            limited = v.limited;
            quota_small = (omega (arith, v.quota_small, d), omega (arith, d));
            reassigned_small = v.reassigned_small;
          },
          inl (refl, omega (arith, d)),
        )
  | inr no_q ↦ elim (Bool-cases (ltb_ℤ zero_ℤ t.reassigned_high_tokens)) [
    | inl r ↦
        let d = dec_parts t.reassigned_high_tokens v.reassigned_small (ground arith) in
        rw (v.limited, no_q, r)
          (
            record {
              limited = v.limited;
              quota_small = v.quota_small;
              reassigned_small = (omega (arith, v.reassigned_small, d), omega (arith, d));
            },
            inl (refl, omega (arith, d)),
          )
    | inr no_r ↦
        let o = one_part t.throughput_quota in
        let p = one_part t.reassigned_high_tokens in
        rw (v.limited, no_q, no_r) (v, inr (refl, ground arith, refl))
  ]
]

-- With throttling on and tokens far from the ends of an int64: of n low priority mutations asked for in
-- a row, exactly as many are let through as there are tokens, or all n if there are more.
pub accepted-min : (n : ℕ) (t : Throttler) → IsOn t → (accepted n t).0 ≡ min n (tokens t)
unfolding accepted
accepted-min zero t v = omega arith
accepted-min (suc n) t v =
    let (w, c) = one_request t v in
    let ih = accepted-min n (can_send_low [] t).1 w in
    elim c [
      | inl sent ↦ rw sent.0 (omega (arith, ih, sent.1))
      | inr held ↦ rw held.0 (omega (arith, ih, held.1, ap tokens held.2))
    ]
