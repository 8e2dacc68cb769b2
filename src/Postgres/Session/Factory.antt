-- ===== src/Postgres/Session/Factory.antt =====
-- `createSession` and `registerInlineProjector` of `SessionFactory` in
-- packages/postgres/src/session.ts, over the resolvers of
-- packages/postgres/src/tenancy/tenant-resolver.ts. A pool is of any type.
use eventfabric.Base.{
  Str, codes, Option, none, some, List, [], ◌∷◌, ◌++◌, map, Result, ok, err, thrown, Action, Dict,
  lookup, insert, and_then, or_else,
}
use eventfabric.Core.Types.{EventEnvelope}
use eventfabric.Postgres.Session.{SessionConfig, Session}

-- `ConjoinedTenantResolver` and `PerDatabaseTenantResolver`.
pub data TenantResolver (Pool : Type 0) : Type 0 where
  conjoined : Pool → TenantResolver Pool
  per_database : Dict Pool → TenantResolver Pool

-- `[...].join(", ")`
abbrev join : List Str → Str
join [] = []
join (t ∷ []) = t
join (t ∷ u ∷ ts) = t ++ (codes ", " ++ join (u ∷ ts))

abbrev no_pool : {Pool : Type 0} → Str → Dict Pool → Str
no_pool tenant_id pools =
    codes "No pool configured for tenant \""
    ++ (tenant_id ++ (codes "\". Available tenants: " ++ join (map (λ entry. entry.0) pools)))

module _ {Pool : Type 0} where
  unfoldable pub get_pool : TenantResolver Pool → Str → Result Pool
  get_pool (conjoined pool) tenant_id = ok pool
  get_pool (per_database pools) tenant_id = elim (lookup tenant_id pools) [
    | none ↦ err (thrown (no_pool tenant_id pools))
    | some pool ↦ ok pool
  ]

  -- `PerDatabaseTenantResolver.addTenant`
  unfoldable pub add_tenant : Str → Pool → Action (Dict Pool) (Unit {0})
  unfolding insert
  add_tenant tenant_id pool pools = elim (lookup tenant_id pools) [
    | none ↦ (ok tt, insert tenant_id pool pools)
    | some _ ↦
        (err (thrown (codes "Tenant \"" ++ (tenant_id ++ codes "\" already registered"))), pools)
  ]

  -- `createSession`: the pool of the tenant, the tenant, and a session without operations.
  unfoldable pub create_session :
      {S P : Type 0} → TenantResolver Pool → Option Str → Result (Pool × (Str × Session S P))
  unfolding get_pool
  create_session resolver tenant_id =
      let tenant = or_else tenant_id (codes "default") in
      and_then (get_pool resolver tenant)
        (λ pool. ok (pool, (tenant, record { operations = []; tracked = [] })))

unfoldable pub register_inline_projector :
    {S P R A : Type 0}
    → List (EventEnvelope P → Action A (Unit {0}))
    → SessionConfig S P R A
    → SessionConfig S P R A
register_inline_projector projections config = record config { inline_projector = some projections }
