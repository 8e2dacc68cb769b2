-- ===== src/Core/Projections/CatchUp/Once.antt =====
-- What packages/core/src/projections/catch-up-projector.ts hands to a projection, over all its
-- batches.
use eventfabric.Base.{
  ℕ, zero, suc, ◌<◌, ◌≤◌, ◌≡◌, refl, sym, ap, subst, ◌∙◌, Str, Bool, true, none, some, or_else,
  List, [], ◌∷◌, ◌++◌, keep, length, arith, All, Result, ok, err, inl, inr, Bool-cases, IsOrder,
  kept_passing, str_eq, str_eq→eq, keep-append, Memᴰ-All, keep-everything, keep-All,
}
use mathlib.Core.List.{append_assoc, append-nil}
use eventfabric.Core.Types.{EventEnvelope}
use eventfabric.Core.Projections.EventLog.{IsOrdered, is_past, is_wanted, is_upto, events_between}
use eventfabric.Core.Projections.CatchUp.{
  CatchUpProjection, CatchUpOptions, CatchUpState, is_spent, handle_events, process_tenant_batch,
  run_pass, catch_up_loop, catch_up_projection,
}
use eventfabric.Core.Projections.CatchUp.Between.{
  is_of, events_between_self, events_between-append, keep-events_between, none_of_another,
  events_between-rest,
}
use eventfabric.Core.Projections.CatchUp.Discovery.{
  active_events, discover_active_tenants, catch_up,
}
use eventfabric.Core.Projections.CatchUp.Drained.{catch_up-drains}
use eventfabric.Core.Projections.CatchUp.Batch.{
  at, handled, Processes, process_tenant_batch-Processes,
}

-- A projection that keeps what it is handed.
abbrev pub recorder : {P : Type 0} → Str → CatchUpProjection P (List (EventEnvelope P))
recorder name = record { name = name; handle = λ t e seen. (ok tt, seen ++ e ∷ []) }

module _ {P : Type 0} (opts : CatchUpOptions) (log : List (EventEnvelope P)) (name : Str)
    (ordered : IsOrdered log) where
  abbrev Recorded : Type 0
  Recorded = CatchUpState (List (EventEnvelope P))

  -- A tenant's checkpoint has not moved back, and what was handed over meanwhile of the tenant's
  -- events are those between its two checkpoints, in order and once each.
  abbrev pub Advances : Str → Recorded → Recorded → Type 0
  Advances u s s' =
      (at opts log (recorder name) u s ≤ at opts log (recorder name) u s')
      × (keep (is_of u) s'.app ≡ keep (is_of u) s.app ++ handled opts log (recorder name) u s s')

  handled-wanted :
      (t : Str) (s s' : Recorded)
      → All
          (λ e. is_wanted opts.include_dismissed e ≡ true)
          (handled opts log (recorder name) t s s')
  unfolding events_between
  handled-wanted t s s' =
      let upto =
        keep (is_upto (at opts log (recorder name) t s'))
          (keep (is_past t (at opts log (recorder name) t s)) log) in
      Memᴰ-All (λ e. is_wanted opts.include_dismissed e ≡ true)
        (keep (is_wanted opts.include_dismissed) upto)
        (λ e i. (kept_passing (is_wanted opts.include_dismissed) upto i).1)

  handle_events-recorder :
      (t : Str) (es seen : List (EventEnvelope P))
      → All (λ e. is_wanted opts.include_dismissed e ≡ true) es
      → handle_events opts log (recorder name) t es seen ≡ (ok tt, seen ++ es)
  unfolding handle_events
  handle_events-recorder t [] seen h = rw (append-nil seen) refl
  handle_events-recorder t (e ∷ es) seen h =
      ground (
        arith,
        h.0,
        handle_events-recorder t es (seen ++ e ∷ []) h.1,
        append_assoc seen (e ∷ []) es,
      )

  Advances-refl : (u : Str) (s : Recorded) → Advances u s s
  Advances-refl u s = (
    omega arith,
    rw (events_between_self (at opts log (recorder name) u s) opts.include_dismissed u log)
        (sym (append-nil (keep (is_of u) s.app))),
  )

  Advances-trans :
      (u : Str) (s s1 s2 : Recorded) → Advances u s s1 → Advances u s1 s2 → Advances u s s2
  Advances-trans u s s1 s2 h k = (
    omega (arith, h.0, k.0),
    rw
        (
          k.1,
          h.1,
          events_between-append (at opts log (recorder name) u s) (at opts log (recorder name) u s1)
              (at opts log (recorder name) u s2) opts.include_dismissed u log h.0 k.0 ordered,
        )
        (append_assoc (keep (is_of u) s.app) (handled opts log (recorder name) u s s1)
          (handled opts log (recorder name) u s1 s2)),
  )

  Processes-Advances :
      (t u : Str) (s s' : Recorded) (r : Result Bool)
      → Processes opts log (recorder name) t s (r, s')
      → Advances u s s'
  Processes-Advances t u s s' (err x) p = subst (Advances u s) (sym p) (Advances-refl u s)
  Processes-Advances t u s s' (ok b) p =
      let new = handled opts log (recorder name) t s s' in
      let seen : s'.app ≡ s.app ++ new =
        ap (λ r. r.1) (sym p.1 ∙ handle_events-recorder t new s.app (handled-wanted t s s')) in
      let split = λ (v : Str). ap (keep (is_of v)) seen ∙ keep-append (is_of v) s.app new in
      elim (Bool-cases (str_eq t u)) [
        | inl same ↦
            subst (λ v. Advances v s s') (str_eq→eq t u same)
              (
                p.0,
                split t
                    ∙ ap (λ es. keep (is_of t) s.app ++ es)
                        (keep-events_between (at opts log (recorder name) t s)
                          (at opts log (recorder name) t s') opts.include_dismissed t log),
              )
        | inr other ↦
            let still : at opts log (recorder name) u s' ≡ at opts log (recorder name) u s =
              ground (arith, other, p.3 name u) in
            let none_new : keep (is_of u) new ≡ [] =
              none_of_another (at opts log (recorder name) t s) (at opts log (recorder name) t s')
                opts.include_dismissed t u log other in
            (
              omega (arith, still),
              split u
                  ∙ rw
                      (
                        none_new,
                        still,
                        events_between_self (at opts log (recorder name) u s) opts.include_dismissed
                            u log,
                      )
                      refl,
            )
      ]

  run_pass-Advances :
      (ts : List Str) (u : Str) (s : Recorded)
      → Advances u s (run_pass opts log (recorder name) ts s).1
  unfolding run_pass
  run_pass-Advances [] u s = Advances-refl u s
  run_pass-Advances (t ∷ ts) u s =
      let (r, s1) = process_tenant_batch opts log (recorder name) t s in
      Advances-trans u s s1 (run_pass opts log (recorder name) ts s1).1
        (Processes-Advances t u s s1 r
          (process_tenant_batch-Processes opts log (recorder name) t s ordered))
        (run_pass-Advances ts u s1)

  catch_up_loop-Advances :
      (k passes : ℕ) (ts : List Str) (u : Str) (s s' : Recorded)
      → catch_up_loop opts log (recorder name) k passes ts s ≡ some s'
      → Advances u s s'
  unfolding catch_up_loop
  catch_up_loop-Advances k passes [] u s s' h =
      subst (λ o. Advances u s (or_else o s)) h (Advances-refl u s)
  catch_up_loop-Advances zero passes (t ∷ ts) u s s' h = cc
  catch_up_loop-Advances (suc k) passes (t ∷ ts) u s s' h =
      let (pending, s1) = run_pass opts log (recorder name) (t ∷ ts) s in
      elim (Bool-cases (is_spent opts.max_batches passes)) [
        | inl spent ↦
            let stays : some s ≡ some s' = ground (arith, h, spent) in
            subst (λ o. Advances u s (or_else o s)) stays (Advances-refl u s)
        | inr more ↦
            Advances-trans u s s1 s' (run_pass-Advances (t ∷ ts) u s)
              (catch_up_loop-Advances k (suc passes) pending u s1 s' (ground (arith, h, more)))
      ]

  module _ (wanted : All (λ e. is_wanted opts.include_dismissed e ≡ true) log)
      (some_batch : 0 < opts.batch_size) (unlimited : opts.max_batches ≡ none)
      (before : Str → Str → Bool) (order : IsOrder before)
      (room : length (active_events before 0 log) ≤ 10000) where
    -- Catching up hands each event of a tenant behind its checkpoint to the projection, in the
    -- order of the log and once each, and no other event of the tenant: behind what a recording
    -- projection had of a tenant stands what the log has behind the tenant's checkpoint. The
    -- conditions: the log is in the order of positions, it has at most 10,000 tenants, every event
    -- is wanted, a batch has room for an event, the passes have no limit, and texts are in a total,
    -- transitive order.
    pub catch_up-hands_over :
        (s : Recorded)
        → (s' : Recorded) × (catch_up before opts log (recorder name) (suc (length log)) s
            ≡ some s')
          × ((u : Str)
              → keep (is_of u) s'.app
                ≡ keep (is_of u) s.app ++ keep (is_past u (at opts log (recorder name) u s)) log)
    unfolding catch_up catch_up_projection events_between
    catch_up-hands_over s =
        let (s', e, drained) =
          catch_up-drains opts log (recorder name) ordered wanted (λ t x a. refl) some_batch
            unlimited before order room s in
        let rest = λ (u : Str).
          events_between-rest (at opts log (recorder name) u s) (at opts log (recorder name) u s')
            opts.include_dismissed u log (drained u)
          ∙ keep-everything (is_wanted opts.include_dismissed)
              (keep (is_past u (at opts log (recorder name) u s)) log)
              (keep-All (λ x. is_wanted opts.include_dismissed x ≡ true)
                (is_past u (at opts log (recorder name) u s)) log wanted) in
        (
          s',
          e,
          λ u.
              (catch_up_loop-Advances (suc (length log)) 0
                (discover_active_tenants before 0 none log) u s s' e).1
              ∙ ap (λ es. keep (is_of u) s.app ++ es) (rest u),
        )
