-- ===== src/Postgres/Anchors/Rounds.antt =====
-- `tenantsWithChainedStreams` and the rounds of PgChainAnchorRunner in
-- packages/postgres/src/chain-anchor-sealer.ts.
use eventfabric.Base.{
  Str, Bool, none, some, List, [], ◌∷◌, str_eq, order_by, distinct_on, with_transaction, ok, err,
  Error,
}
use eventfabric.Postgres.EventStore.Tables.{Backend, StreamVersion}
use eventfabric.Postgres.Anchors.Tables.{AnchorDb}
use eventfabric.Postgres.Anchors.Seal.{SealResult, seal}

-- `WHERE head_hash IS NOT NULL`
abbrev pub chained_tenants : List StreamVersion → List Str
chained_tenants [] = []
chained_tenants (v ∷ vs) =
    let rest = chained_tenants vs in
    elim v.head_hash [ none ↦ rest | some h ↦ v.stream.tenant_id ∷ rest ]

module _ {P : Type 0} (text_before : Str → Str → Bool) where
  -- `SELECT DISTINCT tenant_id ... ORDER BY tenant_id`
  unfoldable pub tenants_with_chained_streams : AnchorDb P → List Str
  tenants_with_chained_streams st =
      order_by text_before (distinct_on str_eq (chained_tenants st.db.stream_versions))

module _ {P : Type 0} (backend : Backend P) (secret : Str) (text_before : Str → Str → Bool) where
  -- The loop of `runOnce`: the results, the errors that are reported, and the tables.
  unfoldable pub seal_each :
      List Str → AnchorDb P → List SealResult × List (Str × Error) × AnchorDb P
  seal_each [] st = ([], [], st)
  seal_each (tenant ∷ tenants) st =
      let (r, st') = with_transaction (seal backend secret text_before tenant) st in
      let (results, errors, st'') = seal_each tenants st' in
      elim r [
        | ok result ↦ (result ∷ results, errors, st'')
        | err e ↦ (results, (tenant, e) ∷ errors, st'')
      ]

  unfoldable pub run_once : AnchorDb P → List SealResult × List (Str × Error) × AnchorDb P
  unfolding tenants_with_chained_streams seal_each
  run_once st = seal_each (tenants_with_chained_streams text_before st) st
