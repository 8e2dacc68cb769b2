-- ===== src/Core/Projections/CatchUp/Drained.antt =====
-- What catchUpProjection of packages/core/src/projections/catch-up-projector.ts leaves to do.
use eventfabric.Base.{
  ℕ, zero, suc, ◌<◌, ◌≤◌, ◌≡◌, ◌⊎◌, refl, sym, ap, subst, ◌∙◌, Str, Bool, true, false, none, some,
  or_else, List, [], ◌∷◌, keep, take, length, arith, Memᴰ, All, keep-All, ok, inl, inr, Bool-cases,
  List-cases, IsOrder, kept_passing, str_eq→eq,
}
use eventfabric.Core.Types.{EventEnvelope}
use eventfabric.Core.Projections.Checkpoints.{get, get-position, position-get}
use eventfabric.Core.Projections.EventLog.{IsOrdered, is_past, is_wanted, load_global, count_past}
use eventfabric.Core.Projections.CatchUp.{
  CatchUpProjection, CatchUpOptions, CatchUpState, did_work, is_spent, handle_events, handle_batch,
  process_tenant_batch, run_pass, catch_up_loop, catch_up_projection,
}
use eventfabric.Core.Projections.CatchUp.Batch.{at, committed, committed_lem}
use eventfabric.Core.Projections.CatchUp.Finish.{
  remaining, run_pass-remaining, catch_up_projection-total,
}
use eventfabric.Core.Projections.CatchUp.Discovery.{
  active_events, discover_active_tenants, discover_active_tenants-Memᴰ, catch_up,
}

module _ {P A : Type 0} (opts : CatchUpOptions) (log : List (EventEnvelope P))
    (projection : CatchUpProjection P A) (ordered : IsOrdered log)
    (wanted : All (λ e. is_wanted opts.include_dismissed e ≡ true) log)
    (handles : (t : Str) (e : EventEnvelope P) (a : A) → (projection.handle t e a).0 ≡ ok tt)
    (some_batch : 0 < opts.batch_size) where
  handle_events-ok :
      (t : Str) (es : List (EventEnvelope P)) (a : A)
      → (handle_events opts log projection t es a).0 ≡ ok tt
  unfolding handle_events
  handle_events-ok t [] a = refl
  handle_events-ok t (e ∷ es) a = ground (
    arith,
    handles t e a,
    handle_events-ok t es a,
    handle_events-ok t es (projection.handle t e a).1,
  )

  handle_batch-worked :
      (t : Str) (from : ℕ) (e : EventEnvelope P) (es : List (EventEnvelope P)) (s : CatchUpState A)
      → (handle_batch opts log projection t from (e ∷ es) s).0 ≡ ok true
  unfolding handle_batch
  handle_batch-worked t from e es s = ground (arith, handle_events-ok t (e ∷ es) s.app)

  none_past :
      (n : ℕ) (es : List (EventEnvelope P))
      → 0 < n
      → All (λ e. is_wanted opts.include_dismissed e ≡ true) es
      → keep (is_wanted opts.include_dismissed) (take n es) ≡ []
      → es ≡ []
  none_past zero es h w e = absurd (omega arith)
  none_past (suc n) [] h w e = refl
  none_past (suc n) (x ∷ es) h w e = ground (arith, w.0, e)

  handle_batch-drained :
      (t : Str) (from : ℕ) (envs : List (EventEnvelope P)) (s s1 : CatchUpState A)
      → did_work
          (committed opts log projection s (handle_batch opts log projection t from envs s1)).0
        ≡ false
      → envs ≡ []
  handle_batch-drained t from [] s s1 h = refl
  handle_batch-drained t from (e ∷ es) s s1 h =
      ground (arith, h, handle_batch-worked t from e es s1)

  -- A batch without work leaves nothing for its tenant.
  process-drained :
      (t : Str) (s : CatchUpState A)
      → did_work (process_tenant_batch opts log projection t s).0 ≡ false
      → remaining opts log projection ordered t (process_tenant_batch opts log projection t s).1 ≡ 0
  unfolding load_global handle_batch
  process-drained t s h =
      let from = (get projection.name t s.checkpoints).0 in
      let s1 = record s { checkpoints = (get projection.name t s.checkpoints).1 } in
      let envs = load_global from opts.batch_size opts.include_dismissed t log in
      let same = committed_lem opts log projection t s in
      let empty : envs ≡ [] =
        handle_batch-drained t from envs s s1 (subst (λ p. did_work p.0 ≡ false) same h) in
      let done : process_tenant_batch opts log projection t s ≡ (ok false, s1) =
        same
        ∙ ap (λ es. committed opts log projection s (handle_batch opts log projection t from es s1))
            empty in
      let past : keep (is_past t from) log ≡ [] =
        none_past opts.batch_size (keep (is_past t from) log) some_batch
          (keep-All (λ e. is_wanted opts.include_dismissed e ≡ true) (is_past t from) log wanted)
          empty in
      let still : at opts log projection t s1 ≡ from =
        position-get projection.name t projection.name t s.checkpoints
        ∙ sym (get-position projection.name t s.checkpoints) in
      rw (done, still, past) refl

  run_pass-drained :
      (ts : List Str) (u : Str) (s : CatchUpState A)
      → Memᴰ u ts
      → Memᴰ u (run_pass opts log projection ts s).0
        ⊎ (remaining opts log projection ordered u (run_pass opts log projection ts s).1 ≡ 0)
  unfolding run_pass
  run_pass-drained [] u s i = elim i [ ]
  run_pass-drained (t ∷ ts) u s (Memᴰ.head d) =
      let (r, s1) = process_tenant_batch opts log projection t s in
      elim (Bool-cases (did_work r)) [
        | inl worked ↦ inl (rw worked (Memᴰ.head d))
        | inr drained ↦
            let none_left : remaining opts log projection ordered u s1 ≡ 0 =
              rw d (process-drained t s drained) in
            inr (omega (arith, none_left, run_pass-remaining opts log projection ordered ts u s1))
      ]
  run_pass-drained (t ∷ ts) u s (Memᴰ.tail i) =
      let (r, s1) = process_tenant_batch opts log projection t s in
      elim (run_pass-drained ts u s1 i) [
        | inl pending ↦ elim (Bool-cases (did_work r)) [
          | inl worked ↦ inl (rw worked (Memᴰ.tail pending))
          | inr drained ↦ inl (rw drained pending)
        ]
        | inr none_left ↦ inr none_left
      ]

  module _ (unlimited : opts.max_batches ≡ none) where
    catch_up_loop-drained :
        (k passes : ℕ) (ts : List Str) (u : Str) (s s' : CatchUpState A)
        → Memᴰ u ts ⊎ (remaining opts log projection ordered u s ≡ 0)
        → catch_up_loop opts log projection k passes ts s ≡ some s'
        → remaining opts log projection ordered u s' ≡ 0
    unfolding catch_up_loop
    catch_up_loop-drained k passes [] u s s' (inl i) h = elim i [ ]
    catch_up_loop-drained k passes [] u s s' (inr none_left) h =
        ap (λ x. remaining opts log projection ordered u (or_else x s)) (sym h) ∙ none_left
    catch_up_loop-drained zero passes (t ∷ ts) u s s' i h = cc
    catch_up_loop-drained (suc k) passes (t ∷ ts) u s s' i h =
        let (pending, s1) = run_pass opts log projection (t ∷ ts) s in
        let go_on : is_spent opts.max_batches passes ≡ false = rw unlimited refl in
        let later : Memᴰ u pending ⊎ (remaining opts log projection ordered u s1 ≡ 0) = elim i [
          | inl here ↦ run_pass-drained (t ∷ ts) u s here
          | inr none_left ↦ inr (
              omega (arith, none_left, run_pass-remaining opts log projection ordered (t ∷ ts) u s))
        ] in
        catch_up_loop-drained k (suc passes) pending u s1 s' later (ground (arith, h, go_on))

    module _ (before : Str → Str → Bool) (order : IsOrder before)
        (room : length (active_events before 0 log) ≤ 10000) where
      -- A tenant that is not discovered has nothing left.
      discovered :
          (u : Str) (s : CatchUpState A)
          → Memᴰ u (discover_active_tenants before 0 none log)
            ⊎ (remaining opts log projection ordered u s ≡ 0)
      discovered u s =
          let from = at opts log projection u s in
          elim (List-cases (keep (is_past u from) log)) [
            | inl e ↦ inr (rw e refl)
            | inr (x, xs, e) ↦
                let here : Memᴰ x (keep (is_past u from) log) =
                  subst (λ es. Memᴰ x es) (sym e) (Memᴰ.head refl) in
                let (i, later) = kept_passing (is_past u from) log here in
                let positive : 0 < x.global_position = ground (arith, later) in
                let mine : x.tenant_id ≡ u = str_eq→eq x.tenant_id u (ground (arith, later)) in
                inl (
                  subst (λ t. Memᴰ t (discover_active_tenants before 0 none log)) mine
                    (discover_active_tenants-Memᴰ before order 0 none log x room i positive))
          ]

      -- Catching up on the tenants that are discovered from position 0 on ends within one pass more
      -- than the log has events and leaves no tenant an event behind its checkpoint. The
      -- conditions: the log is in the order of positions, it has at most 10,000 tenants, every
      -- event is wanted, the handlers do not fail, a batch has room for an event, the passes have
      -- no limit, and texts are in a total, transitive order.
      pub catch_up-drains :
          (s : CatchUpState A)
          → (s' : CatchUpState A) × (catch_up before opts log projection (suc (length log)) s
              ≡ some s')
            × ((u : Str) → count_past u (at opts log projection u s') log ≡ 0)
      unfolding catch_up catch_up_projection
      catch_up-drains s =
          let tenants = discover_active_tenants before 0 none log in
          let (s', e) = catch_up_projection-total opts log projection ordered tenants s in
          (s', e, λ u. catch_up_loop-drained (suc (length log)) 0 tenants u s s' (discovered u s) e)
