-- ===== src/Core/Projections/CatchUp/Discovery.antt =====
-- `discoverActiveTenants` and `loadGlobal` without a tenant in
-- packages/postgres/src/pg-event-store.ts, and catchUpProjection of
-- packages/core/src/projections/catch-up-projector.ts with the tenants that are discovered. The
-- order of texts is that of the database.
use eventfabric.Base.{
  ℕ, ltb, ◌<◌, ◌≤◌, Str, Bool, Option, none, or_else, List, map, str_eq, str_eq_refl, str_eq→eq,
  keep, take, take-all, length, order_by, distinct_on, arith, Memᴰ, subst, ap, [], ◌∷◌, IsOrder,
  order_by-Ordered, order_by-Memᴰ, distinct_on-first, Memᴰ-keep, length-map,
}
use eventfabric.Core.Types.{EventEnvelope}
use eventfabric.Core.Projections.EventLog.{is_wanted}
use eventfabric.Core.Projections.CatchUp.{
  CatchUpProjection, CatchUpOptions, CatchUpState, catch_up_projection,
}

module _ {P : Type 0} where
  -- `WHERE global_position > $1`
  abbrev pub is_after : ℕ → EventEnvelope P → Bool
  is_after from e = ltb from e.global_position

  -- `loadGlobal` without a tenant.
  unfoldable pub load_global_all : ℕ → ℕ → Bool → List (EventEnvelope P) → List (EventEnvelope P)
  load_global_all from limit include_dismissed log =
      keep (is_wanted include_dismissed) (take limit (keep (is_after from) log))

  abbrev pub shares_tenant : EventEnvelope P → EventEnvelope P → Bool
  shares_tenant e f = str_eq e.tenant_id f.tenant_id

  abbrev pub tenant_before : (Str → Str → Bool) → EventEnvelope P → EventEnvelope P → Bool
  tenant_before before e f = before e.tenant_id f.tenant_id

  abbrev pub tenant_of : EventEnvelope P → Str
  tenant_of e = e.tenant_id

  -- One event of each tenant behind a position.
  unfoldable pub active_events :
      (Str → Str → Bool) → ℕ → List (EventEnvelope P) → List (EventEnvelope P)
  active_events before from log =
      distinct_on shares_tenant (order_by (tenant_before before) (keep (is_after from) log))

  unfoldable pub discover_active_tenants :
      (Str → Str → Bool) → ℕ → Option ℕ → List (EventEnvelope P) → List Str
  unfolding active_events
  discover_active_tenants before from limit log =
      take (or_else limit 10000) (map tenant_of (active_events before from log))

-- `catchUpProjection`: the tenants are discovered from position 0 on.
unfoldable pub catch_up :
    {P A : Type 0}
    → (Str → Str → Bool)
    → CatchUpOptions
    → List (EventEnvelope P)
    → CatchUpProjection P A
    → ℕ
    → CatchUpState A
    → Option (CatchUpState A)
unfolding catch_up_projection discover_active_tenants
catch_up before opts log projection fuel s =
    catch_up_projection opts log projection fuel (discover_active_tenants before 0 none log) s

module _ {P : Type 0} (before : Str → Str → Bool) (order : IsOrder before) where
  tenant_before-IsOrder : IsOrder (tenant_before {P = P} before)
  tenant_before-IsOrder = record {
    total = λ e f h. order.total e.tenant_id f.tenant_id h;
    trans = λ e f g h k. order.trans e.tenant_id f.tenant_id g.tenant_id h k;
  }

  Memᴰ-map :
      {e : EventEnvelope P} (es : List (EventEnvelope P))
      → Memᴰ e es
      → Memᴰ e.tenant_id (map tenant_of es)
  Memᴰ-map [] i = elim i [ ]
  Memᴰ-map (x ∷ es) (Memᴰ.head h) = Memᴰ.head (ap tenant_of h)
  Memᴰ-map (x ∷ es) (Memᴰ.tail i) = Memᴰ.tail (Memᴰ-map es i)

  -- Where there are not more tenants than the limit, every tenant with an event behind the position
  -- is discovered.
  pub discover_active_tenants-Memᴰ :
      (from : ℕ) (limit : Option ℕ) (log : List (EventEnvelope P)) (e : EventEnvelope P)
      → length (active_events before from log) ≤ or_else limit 10000
      → Memᴰ e log
      → from < e.global_position
      → Memᴰ e.tenant_id (discover_active_tenants before from limit log)
  unfolding discover_active_tenants active_events
  discover_active_tenants-Memᴰ from limit log e room i later =
      let past = keep (is_after from) log in
      let ordered = order_by (tenant_before before) past in
      let here =
        order_by-Memᴰ (tenant_before before) past
          (Memᴰ-keep (is_after from) log i (ground arith)) in
      let (q, kept, same, _) =
        distinct_on-first shares_tenant (tenant_before before) (λ x. str_eq_refl x.tenant_id)
          (λ x y z h k.
            rw (str_eq→eq x.tenant_id y.tenant_id h, str_eq→eq y.tenant_id z.tenant_id k)
              (str_eq_refl z.tenant_id))
          ordered (order_by-Ordered (tenant_before before) tenant_before-IsOrder past) e here in
      rw
        (take-all (or_else limit 10000) (map tenant_of (distinct_on shares_tenant ordered))
          (omega (arith, room, length-map tenant_of (distinct_on shares_tenant ordered))))
        (subst (λ t. Memᴰ t (map tenant_of (distinct_on shares_tenant ordered)))
          (str_eq→eq q.tenant_id e.tenant_id same)
          (Memᴰ-map (distinct_on shares_tenant ordered) kept))
