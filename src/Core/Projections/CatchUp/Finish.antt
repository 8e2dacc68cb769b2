-- ===== src/Core/Projections/CatchUp/Finish.antt =====
-- How the loop over the pending tenants ends.
use eventfabric.Base.{
  ℕ, zero, suc, ◌≤◌, ◌<◌, ◌≡◌, refl, Str, Bool, true, some, List, [], ◌∷◌, arith, Result, ok, err,
  inl, inr, Bool-cases, str_eq_refl, str_eq→eq, keep, length, length-keep-le, All, All-map,
}
use eventfabric.Core.Types.{EventEnvelope}
use eventfabric.Core.Projections.EventLog.{
  IsOrdered, events_between, count_past, count_past-split, is_upto, is_past, is_wanted,
}
use eventfabric.Core.Projections.CatchUp.{
  CatchUpProjection, CatchUpOptions, CatchUpState, did_work, is_spent, process_tenant_batch,
  run_pass, catch_up_loop, catch_up_projection,
}
use eventfabric.Core.Projections.CatchUp.Batch.{at, Processes, process_tenant_batch-Processes}

module _ {P A : Type 0} (opts : CatchUpOptions) (log : List (EventEnvelope P))
    (projection : CatchUpProjection P A) (ordered : IsOrdered log) where
  -- How many events of a tenant are still to come.
  abbrev pub remaining : Str → CatchUpState A → ℕ
  remaining t s = count_past t (at opts log projection t s) log

  count_past-le : (t : Str) (from to : ℕ) → from ≤ to → count_past t to log ≤ count_past t from log
  count_past-le t from to h = omega (arith, count_past-split t from to log h)

  -- No batch adds to what is left for any tenant.
  Processes-remaining :
      (t u : Str) (s s' : CatchUpState A) (r : Result Bool)
      → Processes opts log projection t s (r, s')
      → remaining u s' ≤ remaining u s
  Processes-remaining t u s s' (err e) p = rw p (omega arith)
  Processes-remaining t u s s' (ok b) p =
      count_past-le u (at opts log projection u s) (at opts log projection u s')
        (ground (arith, p.0, p.3 projection.name u, str_eq_refl projection.name, str_eq→eq t u))

  pub process-remaining :
      (t u : Str) (s : CatchUpState A)
      → remaining u (process_tenant_batch opts log projection t s).1 ≤ remaining u s
  process-remaining t u s =
      let (r, s') = process_tenant_batch opts log projection t s in
      Processes-remaining t u s s' r
        (process_tenant_batch-Processes opts log projection t s ordered)

  Processes-progress :
      (t : Str) (s s' : CatchUpState A) (r : Result Bool)
      → Processes opts log projection t s (r, s')
      → did_work r ≡ true
      → remaining t s' < remaining t s
  unfolding events_between
  Processes-progress t s s' (err e) p h = cc
  Processes-progress t s s' (ok b) p h =
      let from = at opts log projection t s in
      let to = at opts log projection t s' in
      let between = keep (is_upto to) (keep (is_past t from) log) in
      ground (
        arith,
        h,
        p.2,
        count_past-split t from to log p.0,
        length-keep-le (is_wanted opts.include_dismissed) between,
      )

  -- A batch that did some work leaves less for its tenant.
  process-progress :
      (t : Str) (s : CatchUpState A)
      → did_work (process_tenant_batch opts log projection t s).0 ≡ true
      → remaining t (process_tenant_batch opts log projection t s).1 < remaining t s
  process-progress t s h =
      let (r, s') = process_tenant_batch opts log projection t s in
      Processes-progress t s s' r (process_tenant_batch-Processes opts log projection t s ordered) h

  pub run_pass-remaining :
      (ts : List Str) (u : Str) (s : CatchUpState A)
      → remaining u (run_pass opts log projection ts s).1 ≤ remaining u s
  unfolding run_pass
  run_pass-remaining [] u s = omega arith
  run_pass-remaining (t ∷ ts) u s = omega (
    arith,
    process-remaining t u s,
    run_pass-remaining ts u (process_tenant_batch opts log projection t s).1,
  )

  -- After a pass, less is left for every tenant that is still pending.
  run_pass-progress :
      (k : ℕ) (ts : List Str) (s : CatchUpState A)
      → All (λ t. remaining t s < suc k) ts
      → let (pending, s') = run_pass opts log projection ts s in
        All (λ t. remaining t s' < k) pending
  unfolding run_pass
  run_pass-progress k [] s h = tt
  run_pass-progress k (t ∷ ts) s h =
      let (r, s1) = process_tenant_batch opts log projection t s in
      let rest = run_pass-progress k ts s1 (
        All-map _ _ (λ u (le : remaining u s < suc k). omega (arith, process-remaining t u s, le))
          ts h.1) in
      elim (Bool-cases (did_work r)) [
        | inl worked ↦
            rw worked
              (omega (arith, run_pass-remaining ts t s1, process-progress t s worked, h.0), rest)
        | inr drained ↦ rw drained rest
      ]

  catch_up_loop-total :
      (k passes : ℕ) (ts : List Str) (s : CatchUpState A)
      → All (λ t. remaining t s < k) ts
      → (s' : CatchUpState A) × (catch_up_loop opts log projection k passes ts s ≡ some s')
  unfolding catch_up_loop
  catch_up_loop-total k passes [] s h = (s, refl)
  catch_up_loop-total zero passes (t ∷ ts) s h = absurd (omega (arith, h.0))
  catch_up_loop-total (suc k) passes (t ∷ ts) s h =
      let (pending, s') = run_pass opts log projection (t ∷ ts) s in
      let rest = catch_up_loop-total k (suc passes) pending s' (run_pass-progress k (t ∷ ts) s h) in
      elim (Bool-cases (is_spent opts.max_batches passes)) [
        | inl spent ↦ (s, rw spent refl)
        | inr more ↦ (rest.0, rw more rest.1)
      ]

  All-remaining :
      (ts : List Str) (s : CatchUpState A) → All (λ t. remaining t s < suc (length log)) ts
  All-remaining [] s = tt
  All-remaining (t ∷ ts) s = (
    omega (arith, length-keep-le (is_past t (at opts log projection t s)) log),
    All-remaining ts s,
  )

  -- Over a log in the order of positions, the loop ends: one pass more than the log has events is
  -- enough, whatever the handlers do, and also without a limit on the passes.
  pub catch_up_projection-total :
      (tenants : List Str) (s : CatchUpState A)
      → (s' : CatchUpState A) × (catch_up_projection opts log projection
            (suc (length log))
            tenants
            s
          ≡ some s')
  unfolding catch_up_projection
  catch_up_projection-total tenants s =
      catch_up_loop-total (suc (length log)) 0 tenants s (All-remaining tenants s)
