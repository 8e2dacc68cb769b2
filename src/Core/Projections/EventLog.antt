-- ===== src/Core/Projections/EventLog.antt =====
-- The global reads of packages/postgres/src/pg-event-store.ts. The events table is a list in the
-- order of `global_position`, the order that the queries ask for.
use eventfabric.Base.{
  ◌+◌, length, All-take, ℕ, zero, suc, ◌≤◌, ◌<◌, ◌≡◌, refl, Str, Bool, true, false, not, ◌&&◌, ◌||◌,
  Option, none, some, List, [], ◌∷◌, arith, ltb, leb, str_eq, keep, take, All, Bool-cases, inl, inr,
}
use eventfabric.Core.Types.{EventEnvelope, Dismissal}

abbrev pub is_dismissed : Option Dismissal → Bool
is_dismissed none = false
is_dismissed (some _) = true

module _ {P : Type 0} where
  -- `WHERE tenant_id = $1 AND global_position > $2`
  abbrev pub is_past : Str → ℕ → EventEnvelope P → Bool
  is_past tenant_id from e = str_eq e.tenant_id tenant_id && ltb from e.global_position

  -- The filter on what the query gives back.
  abbrev pub is_wanted : Bool → EventEnvelope P → Bool
  is_wanted include_dismissed e = include_dismissed || not (is_dismissed e.dismissed)

  -- `loadGlobal` with a tenant: the limit counts dismissed events, which are dropped afterwards.
  unfoldable pub load_global : ℕ → ℕ → Bool → Str → List (EventEnvelope P) → List (EventEnvelope P)
  load_global from limit include_dismissed tenant_id log =
      keep (is_wanted include_dismissed) (take limit (keep (is_past tenant_id from) log))

  -- The positions increase along the log.
  abbrev pub IsOrdered : List (EventEnvelope P) → Type 0
  IsOrdered [] = Unit
  IsOrdered (e ∷ es) = All (λ x. e.global_position < x.global_position) es × IsOrdered es

  -- `envs[envs.length - 1].globalPosition`, and the position before where there is none.
  abbrev pub last_position : ℕ → List (EventEnvelope P) → ℕ
  last_position from [] = from
  last_position from (e ∷ es) = last_position e.global_position es

  abbrev pub is_upto : ℕ → EventEnvelope P → Bool
  is_upto to e = leb e.global_position to

  -- The events of a tenant behind one position up to another, without the dismissed ones if these
  -- are not wanted.
  unfoldable pub events_between :
      ℕ → ℕ → Bool → Str → List (EventEnvelope P) → List (EventEnvelope P)
  events_between from to include_dismissed tenant_id log =
      keep (is_wanted include_dismissed) (keep (is_upto to) (keep (is_past tenant_id from) log))

  abbrev After : ℕ → List (EventEnvelope P) → Type 0
  After from = All (λ e. from < e.global_position)

  After-trans : (a b : ℕ) (es : List (EventEnvelope P)) → a ≤ b → After b es → After a es
  After-trans a b [] h k = tt
  After-trans a b (e ∷ es) h k = (omega (arith, h, k.0), After-trans a b es h k.1)

  past-After :
      (tenant_id : Str) (from : ℕ) (es : List (EventEnvelope P))
      → After from (keep (is_past tenant_id from) es)
  past-After tenant_id from [] = tt
  past-After tenant_id from (e ∷ es) = ground (arith, past-After tenant_id from es)

  After-keep :
      (p : EventEnvelope P → Bool) (from : ℕ) (es : List (EventEnvelope P))
      → After from es
      → After from (keep p es)
  After-keep p from [] h = tt
  After-keep p from (e ∷ es) h = ground (arith, After-keep p from es h.1)

  IsOrdered-keep :
      (p : EventEnvelope P → Bool) (es : List (EventEnvelope P))
      → IsOrdered es
      → IsOrdered (keep p es)
  IsOrdered-keep p [] h = tt
  IsOrdered-keep p (e ∷ es) h =
      ground (arith, After-keep p e.global_position es h.0, IsOrdered-keep p es h.1)

  last_position-le :
      (from : ℕ) (es : List (EventEnvelope P))
      → IsOrdered es
      → After from es
      → from ≤ last_position from es
  last_position-le from [] v h = omega arith
  last_position-le from (e ∷ es) v h =
      omega (arith, h.0, last_position-le e.global_position es v.1 v.0)

  none_upto : (from : ℕ) (es : List (EventEnvelope P)) → After from es → keep (is_upto from) es ≡ []
  none_upto from [] h = refl
  none_upto from (e ∷ es) h = ground (arith, h.0, none_upto from es h.1)

  IsOrdered-take : (n : ℕ) (es : List (EventEnvelope P)) → IsOrdered es → IsOrdered (take n es)
  IsOrdered-take zero es h = tt
  IsOrdered-take (suc n) [] h = tt
  IsOrdered-take (suc n) (e ∷ es) h = (All-take _ n es h.0, IsOrdered-take n es h.1)

  wanted_batch-IsOrdered :
      (w : EventEnvelope P → Bool) (n : ℕ) (es : List (EventEnvelope P))
      → IsOrdered es
      → IsOrdered (keep w (take n es))
  wanted_batch-IsOrdered w n es h = IsOrdered-keep w (take n es) (IsOrdered-take n es h)

  -- A batch is all that is wanted up to its last position.
  batch_lem :
      (w : EventEnvelope P → Bool) (n from : ℕ) (es : List (EventEnvelope P))
      → IsOrdered es
      → After from es
      → let batch = keep w (take n es) in
        batch ≡ keep w (keep (is_upto (last_position from batch)) es)
  batch_lem w zero from es v h = rw (none_upto from es h) refl
  batch_lem w (suc n) from [] v h = refl
  batch_lem w (suc n) from (e ∷ es) v h = elim (Bool-cases (w e)) [
    | inl taken ↦
        let rest = batch_lem w n e.global_position es v.1 v.0 in
        let low : e.global_position ≤ last_position e.global_position (keep w (take n es)) =
          last_position-le e.global_position (keep w (take n es))
            (wanted_batch-IsOrdered w n es v.1)
            (After-keep w e.global_position (take n es) (All-take _ n es v.0)) in
        ground (arith, taken, rest, low)
    | inr left ↦ ground (arith, left, batch_lem w n from es v.1 h.1)
  ]

  pub load_global-events_between :
      (from limit : ℕ) (include_dismissed : Bool) (tenant_id : Str) (log : List (EventEnvelope P))
      → IsOrdered log
      → let envs = load_global from limit include_dismissed tenant_id log in
        envs ≡ events_between from (last_position from envs) include_dismissed tenant_id log
  unfolding load_global events_between
  load_global-events_between from limit include_dismissed tenant_id log v =
      batch_lem (is_wanted include_dismissed) limit from (keep (is_past tenant_id from) log)
        (IsOrdered-keep (is_past tenant_id from) log v) (past-After tenant_id from log)

  pub load_global-last :
      (from limit : ℕ) (include_dismissed : Bool) (tenant_id : Str) (log : List (EventEnvelope P))
      → IsOrdered log
      → from ≤ last_position from (load_global from limit include_dismissed tenant_id log)
  unfolding load_global
  load_global-last from limit include_dismissed tenant_id log v =
      let past = keep (is_past tenant_id from) log in
      last_position-le from (keep (is_wanted include_dismissed) (take limit past))
        (wanted_batch-IsOrdered (is_wanted include_dismissed) limit past
          (IsOrdered-keep (is_past tenant_id from) log v))
        (After-keep (is_wanted include_dismissed) from (take limit past)
          (All-take _ limit past (past-After tenant_id from log)))

  -- How many events of a tenant lie behind a position.
  abbrev pub count_past : Str → ℕ → List (EventEnvelope P) → ℕ
  count_past tenant_id from log = length (keep (is_past tenant_id from) log)

  pub count_past-split :
      (tenant_id : Str) (from to : ℕ) (log : List (EventEnvelope P))
      → from ≤ to
      → count_past tenant_id from log
        ≡ count_past tenant_id to log
          + length (keep (is_upto to) (keep (is_past tenant_id from) log))
  count_past-split tenant_id from to [] h = omega arith
  count_past-split tenant_id from to (e ∷ es) h =
      ground (arith, count_past-split tenant_id from to es h)
