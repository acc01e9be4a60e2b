-- ===== src/Backoff.antt =====
-- utils/utils.go: ExponentialBackoffExecutor and ExponentialBackoffExecutorWithFinishSignal. The
-- operation is any function of a state of its own; `closed` says whether the finish channel is seen
-- closed in a round.
pub mod Rounds
use goxdcr.Prelude.{
  ℕ, zero, suc, ◌⊎◌, inl, inr, Bool, true, false, List, [], ◌∷◌, Outcome, done, panics,
  if◌then◌else◌,
}
use goxdcr.Prelude.Int64.{ℤ, pos, negsuc, mul_pos}

-- `fails_after_retry e` is ErrorFailedAfterRetry with the last error, `aborts` the error of the closed
-- finish channel.
pub data BackoffResult {ℓ κ} (E : Type ℓ) (A : Type κ) : Type (ℓ ⊔ κ) where
  returns : A → BackoffResult E A
  aborts : BackoffResult E A
  fails_after_retry : E → BackoffResult E A

-- The operation's state at the end, the durations that the sleeps are asked for, and what is returned.
pub record Run (S E A : Type 0) : Type 0 where
  pub state : S
  pub waits : List ℤ
  pub result : BackoffResult E A

-- The bounds of the loop: `i <= maxRetries` admits one round more than there are retries.
abbrev pub rounds_of {ℓ} : {A : Type ℓ} → ℤ → (ℕ → A) → Outcome A
rounds_of (pos max_retries) loop = done (loop max_retries)
rounds_of (negsuc n) loop = panics

module _ {S E A : Type 0} (factor : ℕ) (op : S → S × (E ⊎ A)) where
  abbrev pub ends_with : S → BackoffResult E A → Run S E A
  ends_with s result = record { state = s; waits = []; result = result }

  abbrev pub waits_first : ℤ → Run S E A → Run S E A
  waits_first wait rest = record rest { waits = wait ∷ rest.waits }

  -- The rounds of ExponentialBackoffExecutor, with this many retries left.
  unfoldable pub rounds : ℤ → ℕ → S → Run S E A
  rounds wait zero s = elim (op s).1 [
    | inr a ↦ ends_with (op s).0 (returns a)
    | inl e ↦ ends_with (op s).0 (fails_after_retry e)
  ]
  rounds wait (suc left) s =
      let rest = rounds (mul_pos wait factor) left (op s).0 in
      elim (op s).1 [ inr a ↦ ends_with (op s).0 (returns a) | inl e ↦ waits_first wait rest ]

  -- With no round at all the last error is nil, and its message is asked for.
  unfoldable pub exponential_backoff_executor : ℤ → ℤ → S → Outcome (Run S E A)
  exponential_backoff_executor initial_wait max_retries s =
      rounds_of max_retries (λ n. rounds initial_wait n s)

  -- The rounds with the finish channel, from round `i` on.
  unfoldable pub signalled_rounds : (ℕ → Bool) → ℤ → ℕ → ℕ → S → Run S E A
  signalled_rounds closed wait i zero s = if closed i then ends_with s aborts else elim (op s).1 [
    | inr a ↦ ends_with (op s).0 (returns a)
    | inl e ↦ ends_with (op s).0 (fails_after_retry e)
  ]
  signalled_rounds closed wait i (suc left) s =
      let rest = signalled_rounds closed (mul_pos wait factor) (suc i) left (op s).0 in
      if closed i
      then ends_with s aborts
      else elim (op s).1 [ inr a ↦ ends_with (op s).0 (returns a) | inl e ↦ waits_first wait rest ]

  unfoldable pub executor_with_finish_signal : (ℕ → Bool) → ℤ → ℤ → S → Outcome (Run S E A)
  executor_with_finish_signal closed initial_wait max_retries s =
      rounds_of max_retries (λ n. signalled_rounds closed initial_wait 0 n s)
