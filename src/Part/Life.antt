-- ===== src/Part/Life.antt =====
-- A part moves forward through its states only.
use goxdcr.Prelude.{
  ℕ, ◌+◌, ◌≤◌, ◌<◌, ◌≡◌, ◌≢◌, refl, ◌⊎◌, inl, inr, Option, none, some, List, [], ◌∷◌, arith, ◌==◌,
  if◌then◌else◌, Bool-cases, Option-cases,
}
use goxdcr.Part.{
  PartState, part_initial, part_starting, part_running, part_stopping, part_stopped, part_error,
  rank, is_state, PartError, AbstractPart, set_connector, transition, set_state,
}

rank-le : (s : PartState) → rank s ≤ 5
unfolding rank
rank-le part_initial = omega arith
rank-le part_starting = omega arith
rank-le part_running = omega arith
rank-le part_stopping = omega arith
rank-le part_stopped = omega arith
rank-le part_error = omega arith

rank_initial : (s : PartState) → rank s < 1 → s ≡ part_initial
unfolding rank
rank_initial part_initial h = refl
rank_initial part_starting h = absurd (omega arith)
rank_initial part_running h = absurd (omega arith)
rank_initial part_stopping h = absurd (omega arith)
rank_initial part_stopped h = absurd (omega arith)
rank_initial part_error h = absurd (omega arith)

-- An accepted transition leads to a later state.
transition-lt : (a s : PartState) → transition a s ≡ none → rank a < rank s
unfolding transition is_state rank
transition-lt part_initial s e = ground arith
transition-lt part_starting s e = ground arith
transition-lt part_running s e = ground arith
transition-lt part_stopping s e = ground arith
transition-lt part_stopped s e = ground arith
transition-lt part_error s e = ground arith

-- A request to change the state, or to set the connector.
pub data Request : Type 0 where
  to_state : PartState → Request
  to_connector : ℕ → Request

unfoldable pub apply : Request → AbstractPart → AbstractPart × Option PartError
apply (to_state state) p = set_state state p
apply (to_connector connector) p = set_connector connector p

unfoldable pub final : List Request → AbstractPart → AbstractPart
final [] p = p
final (r ∷ rs) p = final rs (apply r p).0

-- Accepted changes of the state, and those to Part_Starting among them.
unfoldable pub changes : Request → AbstractPart → ℕ × ℕ
changes (to_connector connector) p = (0, 0)
changes (to_state state) p = elim (transition p.state state) [
  | none ↦ (1, if is_state state part_starting then 1 else 0)
  | some err ↦ (0, 0)
]

unfoldable pub total_changes : List Request → AbstractPart → ℕ × ℕ
total_changes [] p = (0, 0)
total_changes (r ∷ rs) p =
    let now = changes r p in
    let later = total_changes rs (apply r p).0 in (now.0 + later.0, now.1 + later.1)

-- One request: forward by at least the changes made, and started only from the initial state.
record Forward (p q : AbstractPart) (made : ℕ × ℕ) : Type 0 where
  onward : made.0 + rank p.state ≤ rank q.state
  starts : (made.1 ≡ 0) ⊎ ((made.1 ≡ 1) × (rank p.state < 1) × (1 ≤ rank q.state))

apply-Forward : (r : Request) (p : AbstractPart) → Forward p (apply r p).0 (changes r p)
unfolding apply changes set_connector set_state is_state rank
apply-Forward (to_connector connector) p = elim (Bool-cases (rank p.state == 0)) [
  | inl e ↦ rw (e, set_connector, is_state) (record { onward = omega arith; starts = inl refl })
  | inr n ↦ rw (n, set_connector, is_state) (record { onward = omega arith; starts = inl refl })
]
apply-Forward (to_state state) p = elim (Option-cases (transition p.state state)) [
  | inl e ↦
      let lt = transition-lt p.state state e in
      rw (e, changes, set_state)
        (record {
          onward = omega arith;
          starts = elim (Bool-cases (rank state == 1)) [
            | inl one ↦ inr (rw one refl, ground arith, ground arith)
            | inr other ↦ inl (rw other refl)
          ];
        })
  | inr (err, e) ↦ rw (e, changes, set_state) (record { onward = omega arith; starts = inl refl })
]

total-Forward : (rs : List Request) (p : AbstractPart) → Forward p (final rs p) (total_changes rs p)
unfolding final total_changes
total-Forward [] p = record { onward = omega arith; starts = inl refl }
total-Forward (r ∷ rs) p =
    let now = apply-Forward r p in
    let later = total-Forward rs (apply r p).0 in
    record {
      onward = omega (arith, now.onward, later.onward);
      starts = elim now.starts [
        | inl n ↦ elim later.starts [
          | inl l ↦ inl (omega arith)
          | inr l ↦ inr (omega arith, omega (arith, now.onward), omega arith)
        ]
        | inr n ↦ elim later.starts [
          | inl l ↦ inr (omega arith, omega arith, omega (arith, later.onward))
          | inr l ↦ absurd (omega arith)
        ]
      ];
    }

-- Over any requests, each accepted change of the state leads to a later one, so that there are at most
-- five; a part is started at most once, and never if it has left its initial state before.
pub part_moves_on :
    (requests : List Request) (p : AbstractPart)
    → ((total_changes requests p).0 + rank p.state ≤ rank (final requests p).state)
      × (rank (final requests p).state ≤ 5)
      × ((total_changes requests p).1 ≤ 1)
      × (p.state ≢ part_initial → (total_changes requests p).1 ≡ 0)
part_moves_on requests p =
    let f = total-Forward requests p in
    (
      f.onward,
      rank-le (final requests p).state,
      elim f.starts [ inl z ↦ omega arith | inr o ↦ omega arith ],
      λ left. elim f.starts [ inl z ↦ z | inr o ↦ absurd (left (rank_initial p.state o.1)) ],
    )
