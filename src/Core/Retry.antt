-- ===== src/Core/Retry.antt =====
-- packages/core/src/resilience/with-concurrency-retry.ts. Sleeping between attempts changes no
-- state of the model and is left out.
use eventfabric.Base.{
  ◌⊎◌, ℕ, zero, suc, ◌+◌, ◌-◌, ◌≤◌, ◌<◌, ◌≡◌, max, Bool, true, false, arith, if◌then◌else◌, Action,
  Result, Result-cases, Bool-cases, inl, inr, subst, sym, ok, err, Error, concurrency_error,
}

-- `defaultIsConcurrencyError`: the error's name is `ConcurrencyError`.
abbrev pub default_is_concurrency_error : Error → Bool
default_is_concurrency_error (concurrency_error _) = true
default_is_concurrency_error _ = false

module _ {W A : Type 0} (is_concurrency : Error → Bool) (fn : Action W A) where
  -- The `while (true)` loop, by the attempts that are left after this one, which is
  -- `maxAttempts - 1 - attempt`: at zero the error is thrown.
  unfoldable pub retry_loop : ℕ → Action W A
  retry_loop zero w = fn w
  retry_loop (suc left) w =
      let (r, w') = fn w in
      let again = retry_loop left w' in
      elim r [ ok a ↦ (ok a, w') | err e ↦ if is_concurrency e then again else (err e, w') ]

  unfoldable pub with_concurrency_retry : ℕ → Action W A
  unfolding retry_loop
  with_concurrency_retry max_attempts = retry_loop (max_attempts - 1)

  module _ (P : W → Type 0) (Q : Result A × W → Type 0) (step : (w : W) → P w → Q (fn w))
      (keep : (w : W) (e : Error) → P w → (fn w).0 ≡ err e → P (fn w).1) where
    retry_loop-rule : (left : ℕ) (w : W) → P w → Q (retry_loop left w)
    unfolding retry_loop
    retry_loop-rule zero w p = step w p
    retry_loop-rule (suc left) w p = elim (Result-cases (fn w).0) [
      | inl (a, e) ↦
          let same : retry_loop (suc left) w ≡ fn w = ground (arith, e) in
          subst Q (sym same) (step w p)
      | inr (x, e) ↦ elim (Bool-cases (is_concurrency x)) [
        | inl again ↦
            let next : retry_loop (suc left) w ≡ retry_loop left (fn w).1 =
              ground (arith, e, again) in
            subst Q (sym next) (retry_loop-rule left (fn w).1 (keep w x p e))
        | inr final ↦
            let same : retry_loop (suc left) w ≡ fn w = ground (arith, e, final) in
            subst Q (sym same) (step w p)
      ]
    ]

    -- What a call establishes wherever an invariant holds, the retried call establishes.
    pub with_concurrency_retry-rule :
        (max_attempts : ℕ) (w : W) → P w → Q (with_concurrency_retry max_attempts w)
    unfolding with_concurrency_retry
    with_concurrency_retry-rule m w p = retry_loop-rule (m - 1) w p

  -- A call that succeeds at once is made once.
  pub with_concurrency_retry-ok :
      (max_attempts : ℕ) (w : W) (a : A) (w' : W)
      → fn w ≡ (ok a, w')
      → with_concurrency_retry max_attempts w ≡ (ok a, w')
  unfolding with_concurrency_retry
  with_concurrency_retry-ok m w a w' h = first_round (m - 1)
    where
      first_round : (left : ℕ) → retry_loop left w ≡ (ok a, w')
      first_round zero = h
      first_round (suc left) = ground (arith, h)

-- An error that the loop retries, if attempts are left.
abbrev pub is_retried : {A : Type 0} → (Error → Bool) → Result A → Bool
is_retried is_concurrency (ok a) = false
is_retried is_concurrency (err e) = is_concurrency e

module _ {W A : Type 0} (is_concurrency : Error → Bool) (fn : Action W A) where
  -- `fn` with a count of its calls.
  abbrev pub counted : Action (ℕ × W) A
  counted (n, w) = let (r, w') = fn w in (r, (suc n, w'))

  retry_loop-calls :
      (left n : ℕ) (w : W)
      → let (r, s) = retry_loop is_concurrency counted left (n, w) in
        (n < s.0)
        × (s.0 ≤ suc (n + left))
        × (is_retried is_concurrency r ≡ true → s.0 ≡ suc (n + left))
  unfolding retry_loop
  retry_loop-calls zero n w = (omega arith, omega arith, λ h. omega arith)
  retry_loop-calls (suc left) n w = ground (arith, retry_loop-calls left (suc n) (fn w).1)

  -- The function is called at least once and at most `max_attempts` times (once, where that is
  -- zero), and a concurrency error comes out only after all of these calls.
  pub with_concurrency_retry-calls :
      (max_attempts : ℕ) (w : W)
      → let (r, s) = with_concurrency_retry is_concurrency counted max_attempts (0, w) in
        (0 < s.0)
        × (s.0 ≤ max 1 max_attempts)
        × ((is_retried is_concurrency r ≡ false) ⊎ (s.0 ≡ max 1 max_attempts))
  unfolding with_concurrency_retry
  with_concurrency_retry-calls m w =
      let h = retry_loop-calls (m - 1) 0 w in
      let (r, s) = retry_loop is_concurrency counted (m - 1) (0, w) in
      (
        h.0,
        omega (arith, h.1),
        elim (Bool-cases (is_retried is_concurrency r)) [
          | inl e ↦ inr (omega (arith, h.2 e))
          | inr e ↦ inl e
        ],
      )
