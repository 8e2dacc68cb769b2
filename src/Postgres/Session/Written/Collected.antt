-- ===== src/Postgres/Session/Written/Collected.antt =====
-- What `saveChangesAsync` of packages/postgres/src/session.ts collects from the tracked aggregates.
use mathlib.Core.List.{append-nil}
use eventfabric.Base.{
  ◌≡◌, refl, sym, ap, subst, ◌∙◌, Str, some, List, [], ◌∷◌, ◌++◌, Result, ok, err, Dict,
  Option-cases, List-cases, inl, inr,
}
use eventfabric.Core.Aggregate.{Aggregate, pull_pending_events}
use eventfabric.Postgres.EventStore.Tables.{Backend}
use eventfabric.Postgres.Session.{
  SessionConfig, PendingOperation, append_to, Session, infer, cannot_infer,
}
use eventfabric.Postgres.Session.Save.{collect}
use eventfabric.Postgres.Session.Written.{
  append_three, operation_writes, queued_writes, tracked_writes,
}

module _ {S P R A : Type 0} (backend : Backend P) (tenant_id : Str)
    (config : SessionConfig S P R A) where
  queued_writes-snoc :
      (ops : List (PendingOperation P)) (op : PendingOperation P)
      → queued_writes backend tenant_id (ops ++ op ∷ [])
        ≡ queued_writes backend tenant_id ops ++ operation_writes backend tenant_id op
  unfolding queued_writes
  queued_writes-snoc [] op = append-nil (operation_writes backend tenant_id op)
  queued_writes-snoc (o ∷ ops) op =
      ap (λ l. operation_writes backend tenant_id o ++ l) (queued_writes-snoc ops op)
      ∙ sym (append_three (operation_writes backend tenant_id o) _ _)

  -- The pending events become operations behind the queued ones.
  abbrev pub Collects :
      Session S P → Dict (Aggregate S P) → Result (Unit {0}) × Session S P → Type 0
  Collects session rest (err x, session') = Unit
  Collects session rest (ok u, session') =
      queued_writes backend tenant_id session'.operations
      ≡ queued_writes backend tenant_id session.operations
        ++ tracked_writes backend tenant_id config rest

  moved_Collects :
      (from session : Session S P) (more rest : Dict (Aggregate S P))
      (r : Result (Unit {0}) × Session S P)
      → queued_writes backend tenant_id from.operations
          ++ tracked_writes backend tenant_id config more
        ≡ queued_writes backend tenant_id session.operations
          ++ tracked_writes backend tenant_id config rest
      → Collects from more r
      → Collects session rest r
  moved_Collects from session more rest (err x, s') e h = tt
  moved_Collects from session more rest (ok u, s') e h = h ∙ e

  pub collect-Collects :
      (done rest : Dict (Aggregate S P)) (session : Session S P)
      → Collects session rest (collect config done rest session)
  unfolding collect tracked_writes operation_writes
  collect-Collects done [] session =
      sym (append-nil (queued_writes backend tenant_id session.operations))
  collect-Collects done ((id, agg) ∷ rest) session =
      let pulled = done ++ (id, (pull_pending_events agg).1) ∷ [] in
      let before = queued_writes backend tenant_id session.operations in
      elim (List-cases agg.pending) [
        | inl idle ↦
            let step : collect config done ((id, agg) ∷ rest) session
                ≡ collect config pulled rest session =
              rw idle refl in
            let same : tracked_writes backend tenant_id config ((id, agg) ∷ rest)
                ≡ tracked_writes backend tenant_id config rest =
              rw idle refl in
            subst (Collects session ((id, agg) ∷ rest)) (sym step) (
              moved_Collects session session rest ((id, agg) ∷ rest) _
                (ap (λ l. before ++ l) (sym same)) (collect-Collects pulled rest session))
        | inr (e, es, pending) ↦ elim (Option-cases (infer config e)) [
          | inl unknown ↦
              let step : collect config done ((id, agg) ∷ rest) session
                  ≡ (err (cannot_infer e), record session { tracked = pulled ++ rest }) =
                rw (pending, unknown) refl in
              subst (Collects session ((id, agg) ∷ rest)) (sym step) tt
          | inr (cls, known) ↦
              let op = append_to id (some agg.version) (e ∷ es) cls.aggregate_name in
              let next = record session { operations = session.operations ++ op ∷ [] } in
              let step : collect config done ((id, agg) ∷ rest) session
                  ≡ collect config pulled rest next =
                rw (pending, known) refl in
              let same : tracked_writes backend tenant_id config ((id, agg) ∷ rest)
                  ≡ operation_writes backend tenant_id op
                    ++ tracked_writes backend tenant_id config rest =
                rw (pending, known) refl in
              let moved =
                ap (λ l. l ++ tracked_writes backend tenant_id config rest)
                  (queued_writes-snoc session.operations op)
                ∙ append_three before _ _
                ∙ ap (λ l. before ++ l) (sym same) in
              subst (Collects session ((id, agg) ∷ rest)) (sym step) (
                moved_Collects next session rest ((id, agg) ∷ rest) _ moved
                  (collect-Collects pulled rest next))
        ]
      ]
