-- ===== src/Core/Projections/CatchUp/Between.antt =====
-- The events between two checkpoints of a tenant, for
-- packages/core/src/projections/catch-up-projector.ts.
use eventfabric.Base.{
  ℕ, ◌≤◌, ◌<◌, ◌≡◌, refl, Str, Bool, false, List, [], ◌∷◌, ◌++◌, arith, keep, All, All-map,
  Bool-cases, inl, inr, leb, str_eq, str_eq→eq,
}
use eventfabric.Core.Types.{EventEnvelope}
use eventfabric.Core.Projections.EventLog.{
  IsOrdered, is_past, is_wanted, events_between, count_past,
}

module _ {P : Type 0} where
  -- The events of a tenant.
  abbrev pub is_of : Str → EventEnvelope P → Bool
  is_of tenant_id e = str_eq e.tenant_id tenant_id

  none_between :
      (from to : ℕ) (include_dismissed : Bool) (t : Str) (log : List (EventEnvelope P))
      → All (λ e. to < e.global_position) log
      → events_between from to include_dismissed t log ≡ []
  unfolding events_between
  none_between from to w t [] h = refl
  none_between from to w t (e ∷ log) h = ground (arith, h.0, none_between from to w t log h.1)

  pub events_between_self :
      (from : ℕ) (include_dismissed : Bool) (t : Str) (log : List (EventEnvelope P))
      → events_between from from include_dismissed t log ≡ []
  unfolding events_between
  events_between_self from w t [] = refl
  events_between_self from w t (e ∷ log) = ground (arith, events_between_self from w t log)

  -- Two stretches of positions that meet.
  pub events_between-append :
      (a b c : ℕ) (include_dismissed : Bool) (t : Str) (log : List (EventEnvelope P))
      → a ≤ b
      → b ≤ c
      → IsOrdered log
      → events_between a c include_dismissed t log
        ≡ events_between a b include_dismissed t log ++ events_between b c include_dismissed t log
  unfolding events_between
  events_between-append a b c w t [] h k v = refl
  events_between-append a b c w t (e ∷ log) h k v =
      let rest = events_between-append a b c w t log h k v.1 in
      elim (Bool-cases (leb e.global_position b)) [
        | inl low ↦ ground (arith, low, k, rest)
        | inr high ↦
            let behind : All (λ (x : EventEnvelope P). b < x.global_position) log =
              All-map _ _
                (λ (x : EventEnvelope P) (l : e.global_position < x.global_position).
                  ground (arith, l, high))
                log v.0 in
            ground (arith, high, h, k, rest, none_between a b w t log behind)
      ]

  pub keep-events_between :
      (from to : ℕ) (include_dismissed : Bool) (t : Str) (log : List (EventEnvelope P))
      → keep (is_of t) (events_between from to include_dismissed t log)
        ≡ events_between from to include_dismissed t log
  unfolding events_between
  keep-events_between from to w t [] = refl
  keep-events_between from to w t (e ∷ log) = ground (arith, keep-events_between from to w t log)

  pub none_of_another :
      (from to : ℕ) (include_dismissed : Bool) (t u : Str) (log : List (EventEnvelope P))
      → str_eq t u ≡ false
      → keep (is_of u) (events_between from to include_dismissed t log) ≡ []
  unfolding events_between
  none_of_another from to w t u [] h = refl
  none_of_another from to w t u (e ∷ log) h =
      ground (arith, h, str_eq→eq e.tenant_id t, none_of_another from to w t u log h)

  -- Where nothing is behind the second position, everything behind the first is between the two.
  pub events_between-rest :
      (from to : ℕ) (include_dismissed : Bool) (t : Str) (log : List (EventEnvelope P))
      → count_past t to log ≡ 0
      → events_between from to include_dismissed t log
        ≡ keep (is_wanted include_dismissed) (keep (is_past t from) log)
  unfolding events_between
  events_between-rest from to w t [] h = refl
  events_between-rest from to w t (e ∷ log) h =
      ground (arith, h, events_between-rest from to w t log)
