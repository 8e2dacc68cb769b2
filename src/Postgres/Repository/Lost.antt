-- ===== src/Postgres/Repository/Lost.antt =====
-- `save` of packages/core/src/repository.ts after an error: the aggregate is not restored.
use eventfabric.Base.{ℕ, ◌≡◌, Str, none, [], arith, ok, err, Error}
use eventfabric.Core.Aggregate.{Aggregate}
use eventfabric.Postgres.EventStore.Tables.{Backend}
use eventfabric.Postgres.Repository.{Repository, World, SaveParams, save}

module _ {S P R A : Type 0} (backend : Backend P) (random_uuid : ℕ → Str) (now : ℕ)
    (repo : Repository S P R A) (tenant_id : Str) where
  save-pending :
      (params : SaveParams) (agg : Aggregate S P) (w : World P R A)
      → (save backend random_uuid now repo tenant_id params agg w).1.0.pending ≡ []
  unfolding save
  save-pending params agg w = ground (arith)

  save_nothing :
      (params : SaveParams) (agg : Aggregate S P) (w : World P R A)
      → agg.pending ≡ []
      → save backend random_uuid now repo tenant_id params agg w ≡ (ok none, (agg, w))
  unfolding save
  save_nothing params agg w e = ground (arith, e)

  save_failed :
      (params : SaveParams) (agg : Aggregate S P) (w : World P R A) (x : Error)
      → (save backend random_uuid now repo tenant_id params agg w).0 ≡ err x
      → (save backend random_uuid now repo tenant_id params agg w).1.1 ≡ w
  unfolding save
  save_failed params agg w x h = ground arith

  -- A call of `save` that throws leaves the database as it was, and the events are gone: another
  -- call on the aggregate, against any database, returns without an error and changes nothing.
  pub save_again :
      (params params' : SaveParams) (agg : Aggregate S P) (w later : World P R A) (x : Error)
      → (save backend random_uuid now repo tenant_id params agg w).0 ≡ err x
      → let saved = (save backend random_uuid now repo tenant_id params agg w).1 in
        (saved.1 ≡ w)
        × (save backend random_uuid now repo tenant_id params' saved.0 later
            ≡ (ok none, (saved.0, later)))
  save_again params params' agg w later x h =
      (save_failed params agg w x h, save_nothing params' _ later (save-pending params agg w))
