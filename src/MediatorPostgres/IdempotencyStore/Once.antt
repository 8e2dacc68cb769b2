-- ===== src/MediatorPostgres/IdempotencyStore/Once.antt =====
-- The slots of packages/mediator-postgres/src/pg-idempotency-store.ts once a command is completed.
use eventfabric.Base.{ℕ, ◌≡◌, refl, subst, Str, Option, or_else, List, [], ◌∷◌}
use eventfabric.Mediator.Idempotency.{claimed, done}
use eventfabric.MediatorPostgres.IdempotencyStore.{SlotRow, release, claim, complete}
use eventfabric.MediatorPostgres.IdempotencyStore.Done.{
  SlotCall, after_call, after_calls, IsDone, Keeps, Spares, SparesAll, complete-IsDone,
  cleanup-IsDone, reset-IsDone,
}
use eventfabric.MediatorPostgres.IdempotencyStore.Claims.{
  claim-IsDone, claim-done, claim-mine, complete-IsDone_mine,
}

module _ {R : Type 0} (null : R) (through_jsonb : R → R) where
  module _ (t k : Str) (r : R) (created : ℕ) where
    after_call-IsDone :
        (tx_tenant : Str) (c : SlotCall R) (rows : List (SlotRow R))
        → Spares null through_jsonb t k r created tx_tenant c
        → IsDone null through_jsonb t k r created rows
        → IsDone null through_jsonb t k r created (after_call null through_jsonb tx_tenant c rows)
    unfolding release
    after_call-IsDone tx_tenant (SlotCall.claims between later tenant key type id now) rows (kb, kl)
          h =
        claim-IsDone null through_jsonb t k r created between later tx_tenant tenant key type id now
          rows kb kl h
    after_call-IsDone tx_tenant (SlotCall.completes key tenant result now) rows other h =
        complete-IsDone null through_jsonb t k r created tx_tenant key tenant result now rows other
          h
    after_call-IsDone tx_tenant (SlotCall.releases key tenant) rows other h = h
    after_call-IsDone tx_tenant (SlotCall.cleans older_than) rows le h =
        cleanup-IsDone null through_jsonb t k r created older_than rows le h
    after_call-IsDone tx_tenant (SlotCall.resets older_than tenant reason now) rows other h =
        reset-IsDone null through_jsonb t k r created older_than tenant reason now rows h

    pub after_calls-IsDone :
        (cs : List (Str × SlotCall R)) (rows : List (SlotRow R))
        → SparesAll null through_jsonb t k r created cs
        → IsDone null through_jsonb t k r created rows
        → IsDone null through_jsonb t k r created (after_calls null through_jsonb cs rows)
    after_calls-IsDone [] rows s h = h
    after_calls-IsDone ((tx_tenant, c) ∷ cs) rows (s, ss) h =
        after_calls-IsDone cs (after_call null through_jsonb tx_tenant c rows) ss
          (after_call-IsDone tx_tenant c rows s h)

  -- A command that was claimed and completed is not handled again: behind any sequence of calls of
  -- any tenants, a claim of its key by its tenant is answered with the result that was stored. The
  -- calls do not complete the slot again and clean up no rows created when it was claimed or
  -- later, and what other transactions commit during a claim leaves the slot as it is.
  pub claim-complete :
      (between later between' later' : List (SlotRow R) → List (SlotRow R))
      (tx_tenant tx_tenant' : Str) (tenant tenant' : Option Str) (key type id type' id' : Str)
      (now at now' : ℕ) (result : R) (rows : List (SlotRow R)) (cs : List (Str × SlotCall R))
      → or_else tenant' tx_tenant' ≡ or_else tenant tx_tenant
      → (claim null between later tx_tenant tenant key type id now rows).0 ≡ claimed
      → SparesAll null through_jsonb (or_else tenant tx_tenant) key (through_jsonb result) now cs
      → Keeps null through_jsonb (or_else tenant tx_tenant) key (through_jsonb result) now between'
      → (claim null between' later' tx_tenant' tenant' key type' id' now' (
          after_calls null through_jsonb cs (
            complete through_jsonb tx_tenant key tenant result at
              (claim null between later tx_tenant tenant key type id now rows).1))).0
        ≡ done (through_jsonb result)
  claim-complete between later between' later' tx_tenant tx_tenant' tenant tenant' key type id type'
        id' now at now' result rows cs same h spares kb =
      let t = or_else tenant tx_tenant in
      let (row, found, made) =
        claim-mine null through_jsonb t key type id now between later tx_tenant tenant rows refl
          h in
      let completed_now =
        subst
          (λ c. IsDone null through_jsonb t key (through_jsonb result) c (
            complete through_jsonb tx_tenant key tenant result at
              (claim null between later tx_tenant tenant key type id now rows).1))
          made
          (complete-IsDone_mine null through_jsonb t key type id now tx_tenant tenant result at row
            _ refl found) in
      claim-done null through_jsonb t key (through_jsonb result) now between' later' tx_tenant'
        tenant' type' id' now' _ kb same
        (after_calls-IsDone t key (through_jsonb result) now cs _ spares completed_now)
