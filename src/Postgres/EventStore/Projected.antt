-- ===== src/Postgres/EventStore/Projected.antt =====
-- `append` of packages/postgres/src/pg-event-store.ts and then a call of catchUpProjection of
-- packages/core/src/projections/catch-up-projector.ts.
use eventfabric.Base.{
  ℕ, suc, ◌≤◌, ◌<◌, ◌≡◌, ap, subst, ◌∙◌, Str, Bool, true, none, some, List, [], ◌∷◌, ◌++◌, arith,
  length, keep, All, All-append, keep-append, str_eq, if◌then◌else◌, ok, IsOrder,
}
use eventfabric.Core.Types.{EventEnvelope}
use eventfabric.Core.Projections.Checkpoints.{position}
use eventfabric.Core.Projections.EventLog.{is_past, is_wanted}
use eventfabric.Core.Projections.CatchUp.{CatchUpOptions, CatchUpState}
use eventfabric.Core.Projections.CatchUp.Between.{is_of}
use eventfabric.Core.Projections.CatchUp.Discovery.{active_events, catch_up}
use eventfabric.Core.Projections.CatchUp.Once.{recorder, catch_up-hands_over}
use eventfabric.Postgres.EventStore.Tables.{Db, PgEventStore, Backend}
use eventfabric.Postgres.EventStore.Rows.{AppendParams, AppendResult}
use eventfabric.Postgres.EventStore.Append.{append}
use eventfabric.Postgres.EventStore.Published.{
  event_log, InOrder, Publishes, Publishes-InOrder, PublishesOr, append-PublishesOr, keep-is_past,
}

module _ {P : Type 0} (backend : Backend P) (random_uuid : ℕ → Str) (now : ℕ)
    (store : PgEventStore P) (opts : CatchUpOptions) (name : Str) (before : Str → Str → Bool)
    (order : IsOrder before) where
  wanted_new :
      (es : List (EventEnvelope P))
      → All (λ e. e.dismissed ≡ none) es
      → All (λ e. is_wanted opts.include_dismissed e ≡ true) es
  wanted_new [] h = tt
  wanted_new (e ∷ es) h = (ground (arith, h.0), wanted_new es h.1)

  -- Tables whose events have the positions that the sequence has given, in order, stay so over an
  -- append that returns, and catching up on them then hands to a recording projection, of each
  -- tenant, the events behind its checkpoint and, behind these, for the tenant of the append, the
  -- appended events, each once and in order. The conditions: the events of the tables are wanted,
  -- no checkpoint has reached the next position, a batch has room for an event, the passes have no
  -- limit, the tables have at most 10,000 tenants, and texts are in a total, transitive order.
  pub append-catch_up :
      (tenant_id : Str) (p : AppendParams P) (db db' : Db P) (a : AppendResult P)
      (s : CatchUpState (List (EventEnvelope P)))
      → InOrder store db
      → All (λ e. is_wanted opts.include_dismissed e ≡ true) (event_log store db)
      → append backend random_uuid now store tenant_id p db ≡ (ok a, db')
      → ((u : Str) → position name u s.checkpoints < db.next_position)
      → 0 < opts.batch_size
      → opts.max_batches ≡ none
      → length (active_events before 0 (event_log store db')) ≤ 10000
      → InOrder store db'
        × (s' : CatchUpState (List (EventEnvelope P))) × (catch_up before opts
              (event_log store db')
              (recorder name)
              (suc (length (event_log store db')))
              s
            ≡ some s')
        × ((u : Str)
            → keep (is_of u) s'.app
              ≡ keep (is_of u) s.app
                ++ (keep (is_past u (position name u s.checkpoints)) (event_log store db)
                    ++ (if str_eq tenant_id u then a.appended else [])))
  append-catch_up tenant_id p db db' a s v wanted e reached some_batch unlimited room =
      let done : Publishes store tenant_id db a db' =
        subst (PublishesOr backend random_uuid now store tenant_id db) e
          (append-PublishesOr backend random_uuid now store tenant_id p db) in
      let v' = Publishes-InOrder store tenant_id db a db' v done in
      let all_wanted : All (λ x. is_wanted opts.include_dismissed x ≡ true) (event_log store db') =
        rw done.log (
          All-append _ (event_log store db) a.appended wanted
            (wanted_new a.appended done.undismissed)) in
      let (s', ran, handed) =
        catch_up-hands_over opts (event_log store db') name v'.ordered all_wanted some_batch
          unlimited before order room s in
      let split = λ (u : Str).
        ap (keep (is_past u (position name u s.checkpoints))) done.log
        ∙ keep-append (is_past u (position name u s.checkpoints)) (event_log store db) a.appended
        ∙ ap (λ es. keep (is_past u (position name u s.checkpoints)) (event_log store db) ++ es)
            (keep-is_past tenant_id u db.next_position (position name u s.checkpoints) a.appended
              (reached u) done.new) in
      (v', s', ran, λ u. handed u ∙ ap (λ es. keep (is_of u) s.app ++ es) (split u))
