-- ===== src/Core/Projections/CatchUp/Batch.antt =====
-- One batch of one tenant: the checkpoint and the handled events go together.
use eventfabric.Base.{
  ltb, ℕ, ◌≤◌, ◌≡◌, refl, sym, subst, Str, Bool, true, false, ◌&&◌, List, [], ◌∷◌, arith,
  if◌then◌else◌, Result, ok, err, Result-cases, inl, inr, str_eq, str_eq_refl, str_eq→eq, length,
}
use eventfabric.Core.Types.{EventEnvelope}
use eventfabric.Core.Projections.Checkpoints.{
  position, get, set, get-position, position-get, position-set,
}
use eventfabric.Core.Projections.EventLog.{
  IsOrdered, load_global, last_position, events_between, load_global-events_between,
  load_global-last,
}
use eventfabric.Core.Projections.CatchUp.{
  CatchUpProjection, CatchUpOptions, CatchUpState, handle_events, handle_batch, read_and_handle,
  process_tenant_batch,
}

module _ {P A : Type 0} (opts : CatchUpOptions) (log : List (EventEnvelope P))
    (projection : CatchUpProjection P A) where
  -- A tenant's checkpoint.
  abbrev pub at : Str → CatchUpState A → ℕ
  at tenant_id s = position projection.name tenant_id s.checkpoints

  -- The events of a tenant that two states' checkpoints delimit.
  abbrev pub handled : Str → CatchUpState A → CatchUpState A → List (EventEnvelope P)
  handled tenant_id s s' =
      events_between (at tenant_id s) (at tenant_id s') opts.include_dismissed tenant_id log

  abbrev pub Processes : Str → CatchUpState A → Result Bool × CatchUpState A → Type 0
  Processes tenant_id s (err e, s') = s' ≡ s
  Processes tenant_id s (ok worked, s') =
      (at tenant_id s ≤ at tenant_id s')
      × (handle_events opts log projection tenant_id (handled tenant_id s s') s.app
          ≡ (ok tt, s'.app))
      × (worked ≡ ltb 0 (length (handled tenant_id s s')))
      × ((n t : Str)
          → position n t s'.checkpoints ≡ (
              if str_eq projection.name n && str_eq tenant_id t
              then at tenant_id s'
              else position n t s.checkpoints))

  -- The commit, or the rollback.
  abbrev pub committed :
      CatchUpState A → Result Bool × CatchUpState A → Result Bool × CatchUpState A
  committed s (ok worked, s') = (ok worked, s')
  committed s (err e, s') = (err e, s)

  pub committed_lem :
      (tenant_id : Str) (s : CatchUpState A)
      → process_tenant_batch opts log projection tenant_id s
        ≡ committed s (read_and_handle opts log projection tenant_id s)
  unfolding process_tenant_batch
  committed_lem tenant_id s = ground arith

  -- What the batch is read from, and its place in the log.
  record Loaded (tenant_id : Str) (from : ℕ) (envs : List (EventEnvelope P)) (s s1 : CatchUpState A)
      : Type 0 where
    start : at tenant_id s ≡ from
    forward : from ≤ last_position from envs
    batch :
        envs ≡ events_between from (last_position from envs) opts.include_dismissed tenant_id log
    same_app : s1.app ≡ s.app
    same_positions : (n t : Str) → position n t s1.checkpoints ≡ position n t s.checkpoints

  empty-Processes :
      (tenant_id : Str) (from : ℕ) (s s1 : CatchUpState A)
      → Loaded tenant_id from [] s s1
      → Processes tenant_id s (ok false, s1)
  unfolding handle_events
  empty-Processes tenant_id from s s1 l =
      let still = l.same_positions projection.name tenant_id in
      let none_left : handled tenant_id s s1 ≡ [] = rw (still, l.start) (sym l.batch) in
      (
        omega (arith, still),
        rw (none_left, l.same_app) refl,
        rw none_left refl,
        λ n t. ground (
          arith,
          l.same_positions n t,
          l.same_positions projection.name tenant_id,
          str_eq→eq projection.name n,
          str_eq→eq tenant_id t,
        ),
      )

  written-Processes :
      (tenant_id : Str) (from : ℕ) (x : EventEnvelope P) (xs : List (EventEnvelope P))
      (s s1 : CatchUpState A) (a : A)
      → Loaded tenant_id from (x ∷ xs) s s1
      → handle_events opts log projection tenant_id (x ∷ xs) s1.app ≡ (ok tt, a)
      → Processes tenant_id s (
        ok true,
        record {
          checkpoints = set projection.name tenant_id (last_position from (x ∷ xs)) s1.checkpoints;
          app = a;
        },
      )
  written-Processes tenant_id from x xs s s1 a l h =
      let to = last_position from (x ∷ xs) in
      let moved : position projection.name tenant_id
            (set projection.name tenant_id to s1.checkpoints)
          ≡ to =
        ground (
          arith,
          position-set projection.name tenant_id projection.name tenant_id to s1.checkpoints,
          str_eq_refl projection.name,
          str_eq_refl tenant_id,
          l.same_positions projection.name tenant_id,
          l.start,
          l.forward,
        ) in
      let there : events_between (at tenant_id s)
            (position projection.name tenant_id (set projection.name tenant_id to s1.checkpoints))
            opts.include_dismissed tenant_id log
          ≡ (x ∷ xs) =
        rw (moved, l.start) (sym l.batch) in
      (
        omega (arith, moved, l.start, l.forward),
        rw there (
            subst (λ y. handle_events opts log projection tenant_id (x ∷ xs) y ≡ (ok tt, a))
              l.same_app h),
        rw there (ground arith),
        λ n t. ground (
          arith,
          position-set projection.name tenant_id n t to s1.checkpoints,
          l.same_positions n t,
          str_eq→eq projection.name n,
          str_eq→eq tenant_id t,
        ),
      )

  handle_batch-Processes :
      (tenant_id : Str) (from : ℕ) (envs : List (EventEnvelope P)) (s s1 : CatchUpState A)
      → Loaded tenant_id from envs s s1
      → Processes tenant_id s
          (committed s (handle_batch opts log projection tenant_id from envs s1))
  unfolding handle_batch
  handle_batch-Processes tenant_id from [] s s1 l = empty-Processes tenant_id from s s1 l
  handle_batch-Processes tenant_id from (x ∷ xs) s s1 l =
      let t = handle_events opts log projection tenant_id (x ∷ xs) s1.app in
      elim (Result-cases t.0) [
        | inl (u, e) ↦
            let both : t ≡ (ok tt, t.1) = ground (arith, e) in
            let done : handle_batch opts log projection tenant_id from (x ∷ xs) s1 ≡ (
              ok true,
              record {
                checkpoints =
                    set projection.name tenant_id (last_position from (x ∷ xs)) s1.checkpoints;
                app = t.1;
              },
            ) =
              ground (arith, e) in
            subst (λ r. Processes tenant_id s (committed s r)) (sym done)
              (written-Processes tenant_id from x xs s s1 t.1 l both)
        | inr (error, e) ↦
            let done : handle_batch opts log projection tenant_id from (x ∷ xs) s1
                ≡ (err error, record s1 { app = t.1 }) =
              ground (arith, e) in
            subst (λ r. Processes tenant_id s (committed s r)) (sym done) refl
      ]

  loaded :
      (tenant_id : Str) (s : CatchUpState A)
      → IsOrdered log
      → let (from, checkpoints) = get projection.name tenant_id s.checkpoints in
        Loaded tenant_id from
          (load_global from opts.batch_size opts.include_dismissed tenant_id log)
          s
          (record s { checkpoints = checkpoints })
  loaded tenant_id s v =
      let (from, checkpoints) = get projection.name tenant_id s.checkpoints in
      record {
        start = sym (get-position projection.name tenant_id s.checkpoints);
        forward = load_global-last from opts.batch_size opts.include_dismissed tenant_id log v;
        batch =
            load_global-events_between from opts.batch_size opts.include_dismissed tenant_id log v;
        same_app = refl;
        same_positions = λ n t. position-get projection.name tenant_id n t s.checkpoints;
      }

  -- Over a log in the order of positions, a batch that fails changes nothing. One that succeeds
  -- moves the tenant's checkpoint from one position forward to another, has handled exactly the
  -- tenant's events between the two, each once and in order (the dismissed ones only where they are
  -- wanted), tells whether there were any, and leaves every other checkpoint.
  pub process_tenant_batch-Processes :
      (tenant_id : Str) (s : CatchUpState A)
      → IsOrdered log
      → Processes tenant_id s (process_tenant_batch opts log projection tenant_id s)
  process_tenant_batch-Processes tenant_id s v =
      let (from, checkpoints) = get projection.name tenant_id s.checkpoints in
      subst (Processes tenant_id s) (sym (committed_lem tenant_id s)) (
        handle_batch-Processes tenant_id from
          (load_global from opts.batch_size opts.include_dismissed tenant_id log) s
          (record s { checkpoints = checkpoints }) (loaded tenant_id s v))
