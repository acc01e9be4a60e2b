-- ===== src/Backoff/Rounds.antt =====
-- Which round ends the backoff executors, and how long they waited before it.
use goxdcr.Prelude.{
  ℕ, zero, suc, ◌+◌, ◌*◌, ◌^◌, ◌≤◌, ◌<◌, ◌≡◌, refl, sym, ap, ◌∙◌, subst, ◌⊎◌, inl, inr, Bool, true,
  false, List, [], ◌∷◌, done, arith, if◌then◌else◌,
}
use goxdcr.Prelude.Int64.{ℤ, pos, negsuc, wrap, wrap_of_IsInt64, mul_pos}
use goxdcr.Backoff.{
  returns, aborts, fails_after_retry, Run, ends_with, waits_first, rounds,
  exponential_backoff_executor, signalled_rounds, executor_with_finish_signal,
}
use native.Mathlib.Nat.{pow-zero, pow-suc, pow-le-pow_right, mul-le-mul_left, mul_assoc}

-- The waits before round `i + k`, from round `i` on: round `j` waits `w * factor ^ j`.
abbrev pub powers : ℕ → ℕ → ℕ → ℕ → List ℤ
powers w factor i zero = []
powers w factor i (suc k) = pos (w * factor ^ i) ∷ powers w factor (suc i) k

power_grows : (w f i n : ℕ) → 0 < f → i ≤ n → w * f ^ n < 2 ^ 63 → w * f ^ i < 2 ^ 63
power_grows w f i n h le b = let m = mul-le-mul_left w (pow-le-pow_right h le) in omega (arith, m)

next_wait : (w f i : ℕ) → w * f ^ suc i < 2 ^ 63 → mul_pos (pos (w * f ^ i)) f ≡ pos (w * f ^ suc i)
unfolding mul_pos
next_wait w f i h =
    ap (λ x. wrap (pos x)) (mul_assoc w (f ^ i) f ∙ ap (λ x. w * x) (sym (pow-suc f i)))
    ∙ wrap_of_IsInt64 (pos (w * f ^ suc i)) h

module _ {S E A : Type 0} where
  -- The operation's state before round `k`.
  abbrev pub state_before : (S → S × (E ⊎ A)) → ℕ → S → S
  state_before op zero s = s
  state_before op (suc k) s = state_before op k (op s).0

  abbrev pub Fails : (S → S × (E ⊎ A)) → S → Type 0
  Fails op s = (e : E) × ((op s).1 ≡ inl e)

  -- How a run of the rounds from `i` on ends in its round `k`, the last of which is round `n`.
  abbrev pub EndsIn : (S → S × (E ⊎ A)) → (ℕ → Bool) → ℕ → ℕ → ℕ → S → Run S E A → Type 0
  EndsIn op closed i n k s run =
      let before = state_before op k s in
      ((closed (i + k) ≡ true) × (run.state ≡ before) × (run.result ≡ aborts))
      ⊎ ((closed (i + k) ≡ false)
          × (run.state ≡ (op before).0)
          × (a : A) × ((op before).1 ≡ inr a)
          × (run.result ≡ returns a))
      ⊎ ((closed (i + k) ≡ false)
          × (run.state ≡ (op before).0)
          × (k ≡ n)
          × (e : E) × ((op before).1 ≡ inl e)
          × (run.result ≡ fails_after_retry e))

  -- A run of at most `n + 1` rounds from round `i` on.
  pub record IsRun (op : S → S × (E ⊎ A)) (closed : ℕ → Bool) (w factor i n : ℕ) (s : S)
      (run : Run S E A) : Type 0 where
    pub last : ℕ
    pub in_bounds : last ≤ n
    pub all_fail : (j : ℕ) → j < last → Fails op (state_before op j s)
    pub none_closed : (j : ℕ) → j < last → closed (i + j) ≡ false
    pub all_waits : run.waits ≡ powers w factor i last
    pub ends : EndsIn op closed i n last s run

  module _ (op : S → S × (E ⊎ A)) (closed : ℕ → Bool) (w factor : ℕ) where
    ends_at_once :
        (i n : ℕ) (s : S) (run : Run S E A)
        → run.waits ≡ []
        → EndsIn op closed i n zero s run
        → IsRun op closed w factor i n s run
    ends_at_once i n s run e h = record {
      last = zero;
      in_bounds = omega arith;
      all_fail = λ j l. absurd (omega arith);
      none_closed = λ j l. absurd (omega arith);
      all_waits = e;
      ends = h;
    }

    move :
        (i n k : ℕ) (s : S) (run : Run S E A)
        → EndsIn op closed (suc i) n k (op s).0 run
        → EndsIn op closed i (suc n) (suc k) s run
    move i n k s run (inl (c, st, r)) = inl (ap closed (omega arith) ∙ c, st, r)
    move i n k s run (inr (inl (c, st, a, f, r))) =
        inr (inl (ap closed (omega arith) ∙ c, st, a, f, r))
    move i n k s run (inr (inr (c, st, l, e, f, r))) =
        inr (inr (ap closed (omega arith) ∙ c, st, ap suc l, e, f, r))

    goes_on :
        (i n : ℕ) (s : S) (e : E) (run : Run S E A)
        → closed i ≡ false
        → (op s).1 ≡ inl e
        → IsRun op closed w factor (suc i) n (op s).0 run
        → IsRun op closed w factor i (suc n) s (waits_first factor op (pos (w * factor ^ i)) run)
    goes_on i n s e run c f r = record {
      last = suc r.last;
      in_bounds = omega (arith, r.in_bounds);
      all_fail = fail_before;
      none_closed = open_before;
      all_waits = ap (λ l. pos (w * factor ^ i) ∷ l) r.all_waits;
      ends = move i n r.last s run r.ends;
    }
      where
        fail_before : (j : ℕ) → j < suc r.last → Fails op (state_before op j s)
        fail_before zero l = (e, f)
        fail_before (suc j) l = r.all_fail j (omega arith)

        open_before : (j : ℕ) → j < suc r.last → closed (i + j) ≡ false
        open_before zero l = ap closed (omega arith) ∙ c
        open_before (suc j) l = ap closed (omega arith) ∙ r.none_closed j (omega arith)

    -- The first of the rounds, when the finish channel and the operation say this.
    first_round :
        (i n : ℕ) (s : S) (rest : Run S E A) (c : Bool) (r : E ⊎ A)
        → closed i ≡ c
        → (op s).1 ≡ r
        → IsRun op closed w factor (suc i) n (op s).0 rest
        → IsRun op closed w factor i (suc n) s (
            if c then ends_with factor op s aborts else elim r [
              | inr a ↦ ends_with factor op (op s).0 (returns a)
              | inl e ↦ waits_first factor op (pos (w * factor ^ i)) rest
            ])
    first_round i n s rest true r c f g =
        ends_at_once i (suc n) s _ refl (inl (ap closed (omega arith) ∙ c, refl, refl))
    first_round i n s rest false (inr a) c f g =
        ends_at_once i (suc n) s _ refl (inr (inl (ap closed (omega arith) ∙ c, refl, a, f, refl)))
    first_round i n s rest false (inl e) c f g = goes_on i n s e rest c f g

    last_round :
        (i : ℕ) (s : S) (c : Bool) (r : E ⊎ A)
        → closed i ≡ c
        → (op s).1 ≡ r
        → IsRun op closed w factor i zero s (
            if c then ends_with factor op s aborts else elim r [
              | inr a ↦ ends_with factor op (op s).0 (returns a)
              | inl e ↦ ends_with factor op (op s).0 (fails_after_retry e)
            ])
    last_round i s true r c f =
        ends_at_once i zero s _ refl (inl (ap closed (omega arith) ∙ c, refl, refl))
    last_round i s false (inr a) c f =
        ends_at_once i zero s _ refl (inr (inl (ap closed (omega arith) ∙ c, refl, a, f, refl)))
    last_round i s false (inl e) c f =
        ends_at_once i zero s _ refl
          (inr (inr (ap closed (omega arith) ∙ c, refl, refl, e, f, refl)))

    signalled_rounds-IsRun :
        (i n : ℕ) (s : S)
        → 0 < factor
        → w * factor ^ (i + n) < 2 ^ 63
        → IsRun op closed w factor i n s
            (signalled_rounds factor op closed (pos (w * factor ^ i)) i n s)
    unfolding signalled_rounds
    signalled_rounds-IsRun i zero s h b = last_round i s (closed i) (op s).1 refl refl
    signalled_rounds-IsRun i (suc n) s h b =
        let bound = power_grows w factor (suc i) (i + suc n) h (omega arith) b in
        let same : i + suc n ≡ suc i + n = omega arith in
        let b' = subst (λ m. w * factor ^ m < 2 ^ 63) same b in
        let g =
          subst
            (λ wait.
              IsRun op closed w factor (suc i) n (op s).0
                (signalled_rounds factor op closed wait (suc i) n (op s).0))
            (sym (next_wait w factor i bound)) (signalled_rounds-IsRun (suc i) n (op s).0 h b') in
        first_round i n s _ (closed i) (op s).1 refl refl g

  -- The executor is the one with a finish channel that is never closed.
  rounds_unsignalled :
      (factor : ℕ) (op : S → S × (E ⊎ A)) (wait : ℤ) (i n : ℕ) (s : S)
      → rounds factor op wait n s ≡ signalled_rounds factor op (λ i. false) wait i n s
  unfolding rounds signalled_rounds
  rounds_unsignalled factor op wait i zero s = refl
  rounds_unsignalled factor op wait i (suc n) s =
      ap
        (λ rest. elim (op s).1 [
          | inr a ↦ ends_with factor op (op s).0 (returns a)
          | inl e ↦ waits_first factor op wait rest
        ])
        (rounds_unsignalled factor op (mul_pos wait factor) (suc i) n (op s).0)

  exponential_backoff_executor-eq :
      (factor : ℕ) (op : S → S × (E ⊎ A)) (initial_wait max_retries : ℤ) (s : S)
      → exponential_backoff_executor factor op initial_wait max_retries s
        ≡ executor_with_finish_signal factor op (λ i. false) initial_wait max_retries s
  unfolding exponential_backoff_executor executor_with_finish_signal
  exponential_backoff_executor-eq factor op initial_wait (pos n) s =
      ap done (rounds_unsignalled factor op initial_wait 0 n s)
  exponential_backoff_executor-eq factor op initial_wait (negsuc n) s = refl

  executor_with_finish_signal-IsRun :
      (factor : ℕ) (op : S → S × (E ⊎ A)) (closed : ℕ → Bool) (w n : ℕ) (s : S)
      → 0 < factor
      → w * factor ^ n < 2 ^ 63
      → (run : Run S E A) × (executor_with_finish_signal factor op closed (pos w) (pos n) s
          ≡ done run)
        × IsRun op closed w factor 0 n s run
  unfolding executor_with_finish_signal
  executor_with_finish_signal-IsRun factor op closed w n s h b =
      let first : w * factor ^ 0 ≡ w = ap (λ x. w * x) (pow-zero factor) ∙ omega arith in
      (
        signalled_rounds factor op closed (pos w) 0 n s,
        refl,
        subst
            (λ x. IsRun op closed w factor 0 n s (signalled_rounds factor op closed (pos x) 0 n s))
            first
            (signalled_rounds-IsRun op closed w factor 0 n s h
              (subst (λ m. w * factor ^ m < 2 ^ 63) (omega arith) b)),
      )

  -- For any operation, retries and times at which the finish channel is seen closed, when the longest
  -- wait is an int64: both executors return. They run the operation until it succeeds, the finish
  -- channel is seen closed or the retries are used up, and not once more; they return the result of the
  -- success or the last error; and before each further round they ask for a sleep, `factor` times as long each time.
  pub executors-IsRun :
      (factor : ℕ) (op : S → S × (E ⊎ A)) (closed : ℕ → Bool) (w n : ℕ) (s : S)
      → 0 < factor
      → w * factor ^ n < 2 ^ 63
      → ((run : Run S E A) × (executor_with_finish_signal factor op closed (pos w) (pos n) s
            ≡ done run)
          × IsRun op closed w factor 0 n s run)
        × (run : Run S E A) × (exponential_backoff_executor factor op (pos w) (pos n) s ≡ done run)
        × IsRun op (λ i. false) w factor 0 n s run
  executors-IsRun factor op closed w n s h b =
      let plain = executor_with_finish_signal-IsRun factor op (λ i. false) w n s h b in
      (
        executor_with_finish_signal-IsRun factor op closed w n s h b,
        plain.0,
        exponential_backoff_executor-eq factor op (pos w) (pos n) s ∙ plain.1,
        plain.2,
      )
