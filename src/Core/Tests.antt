-- ===== src/Core/Tests.antt =====
-- The retry around a call that loses its first race.
use eventfabric.Base.{
  ℕ, zero, suc, ◌<◌, ◌≤◌, ◌≡◌, refl, max, false, ◌⊎◌, codes, Action, ok, err, concurrency_error,
}
use eventfabric.Core.Retry.{
  default_is_concurrency_error, with_concurrency_retry, is_retried, counted,
  with_concurrency_retry-calls,
}

-- It fails until the store holds zero.
abbrev contended : Action ℕ ℕ
contended zero = (ok 7, 0)
contended (suc n) = (err (concurrency_error (codes "conflict")), n)

with_concurrency_retry-calls_example :
    let (r, s) =
      with_concurrency_retry default_is_concurrency_error
        (counted default_is_concurrency_error contended)
        3
        (0, 1) in
    (0 < s.0)
    × (s.0 ≤ max 1 3)
    × ((is_retried default_is_concurrency_error r ≡ false) ⊎ (s.0 ≡ max 1 3))
with_concurrency_retry-calls_example =
    with_concurrency_retry-calls default_is_concurrency_error contended 3 1

-- The second call answers.
retried_once :
    with_concurrency_retry default_is_concurrency_error
      (counted default_is_concurrency_error contended)
      3
      (0, 1)
    ≡ (ok 7, (2, 0))
unfolding with_concurrency_retry
retried_once = refl
