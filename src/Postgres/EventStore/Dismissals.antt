-- ===== src/Postgres/EventStore/Dismissals.antt =====
-- `dismiss` of packages/postgres/src/pg-event-store.ts keeps the tables consistent.
use eventfabric.Base.{ℕ, suc, ◌≡◌, refl, sym, subst, Str, List, [], ◌∷◌, map, arith, keep}
use eventfabric.Core.Types.{Dismissal}
use eventfabric.Postgres.EventStore.Tables.{StreamId, EventRow, Db}
use eventfabric.Postgres.EventStore.Reads.{in_stream, mark_dismissed, dismiss}
use eventfabric.Postgres.EventStore.Versions.{Numbered, IsConsistent, current_version}

module _ {P : Type 0} (tenant_id event_id : Str) (info : Dismissal) where
  keep-mark_dismissed :
      (s : StreamId) (rs : List (EventRow P))
      → keep (in_stream s) (map (mark_dismissed tenant_id event_id info) rs)
        ≡ map (mark_dismissed tenant_id event_id info) (keep (in_stream s) rs)
  keep-mark_dismissed s [] = refl
  keep-mark_dismissed s (r ∷ rs) = ground (arith, keep-mark_dismissed s rs)

  Numbered-mark_dismissed :
      (n m : ℕ) (rs : List (EventRow P))
      → Numbered n rs m
      → Numbered n (map (mark_dismissed tenant_id event_id info) rs) m
  Numbered-mark_dismissed n m [] h = h
  Numbered-mark_dismissed n m (r ∷ rs) h =
      (ground (arith, h.0), Numbered-mark_dismissed (suc n) m rs h.1)

  pub dismiss-IsConsistent :
      (db : Db P) → IsConsistent db → IsConsistent (dismiss tenant_id event_id info db)
  unfolding dismiss
  dismiss-IsConsistent db c = record {
    numbered = λ s.
        subst (λ rs. Numbered 0 rs (current_version s db)) (sym (keep-mark_dismissed s db.events))
          (Numbered-mark_dismissed 0 (current_version s db) (keep (in_stream s) db.events)
            (c.numbered s));
    started = c.started;
  }
