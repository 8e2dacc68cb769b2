-- ===== src/Core/Projections/Async/Redelivery.antt =====
-- An event that comes again after its row was processed.
use eventfabric.Base.{
  ◌≤◌, ◌≡◌, ◌⊎◌, refl, sym, subst, ◌∙◌, Error, Str, false, Option, List, [], ◌∷◌, arith, All,
  All-map, ok, err, Result-cases, inl, inr, str_eq_refl,
}
use eventfabric.Core.Types.{EventEnvelope}
use eventfabric.Core.Projections.TopicFilter.{matches_topic}
use eventfabric.Core.Projections.Checkpoints.{
  position, get, get-position, position-get, position-set,
}
use eventfabric.Core.Projections.Async.{
  AsyncProjection, AsyncState, run_projection, run_projections,
}

module _ {P A : Type 0} (env : EventEnvelope P) (topic : Option Str) where
  -- A projection that has no more to do with the event.
  abbrev pub IsDone : AsyncState A → AsyncProjection P A → Type 0
  IsDone s p =
      (matches_topic p.topic_filter topic ≡ false)
      ⊎ (env.global_position ≤ position p.name env.tenant_id s.checkpoints)

  run_projection-forward :
      (p : AsyncProjection P A) (s : AsyncState A) (n t : Str)
      → position n t s.checkpoints ≤ position n t (run_projection env topic p s).1.checkpoints
  unfolding run_projection
  run_projection-forward p s n t =
      let cs = (get p.name env.tenant_id s.checkpoints).1 in
      ground (
        arith,
        position-get p.name env.tenant_id n t s.checkpoints,
        position-set p.name env.tenant_id n t env.global_position cs,
      )

  run_projection-IsDone :
      (p : AsyncProjection P A) (s s' : AsyncState A)
      → run_projection env topic p s ≡ (ok tt, s')
      → IsDone s' p
  unfolding run_projection
  run_projection-IsDone p s s' h =
      let cs = (get p.name env.tenant_id s.checkpoints).1 in
      ground (
        arith,
        h,
        get-position p.name env.tenant_id s.checkpoints,
        position-get p.name env.tenant_id p.name env.tenant_id s.checkpoints,
        position-set p.name env.tenant_id p.name env.tenant_id env.global_position cs,
        str_eq_refl p.name,
        str_eq_refl env.tenant_id,
      )

  -- A projection that is done is passed over.
  IsDone-run_projection :
      (p : AsyncProjection P A) (s : AsyncState A)
      → IsDone s p
      → ((run_projection env topic p s).0 ≡ ok tt) × ((run_projection env topic p s).1.app ≡ s.app)
  unfolding run_projection
  IsDone-run_projection p s d = ground (arith, d, get-position p.name env.tenant_id s.checkpoints)

  pub IsDone-forward :
      (p : AsyncProjection P A) (s s' : AsyncState A)
      → ((n t : Str) → position n t s.checkpoints ≤ position n t s'.checkpoints)
      → IsDone s p
      → IsDone s' p
  IsDone-forward p s s' le (inl off) = inl off
  IsDone-forward p s s' le (inr past) = inr (omega (arith, le p.name env.tenant_id, past))

  -- The loop's step.
  continued :
      (p : AsyncProjection P A) (ps : List (AsyncProjection P A)) (s : AsyncState A) (r : Unit {0})
      → (run_projection env topic p s).0 ≡ ok r
      → run_projections env topic (p ∷ ps) s
        ≡ run_projections env topic ps (run_projection env topic p s).1
  unfolding run_projections
  continued p ps s r e = ground (arith, e)

  stopped :
      (p : AsyncProjection P A) (ps : List (AsyncProjection P A)) (s : AsyncState A) (x : Error)
      → (run_projection env topic p s).0 ≡ err x
      → run_projections env topic (p ∷ ps) s ≡ (err x, (run_projection env topic p s).1)
  unfolding run_projections
  stopped p ps s x e = ground (arith, e)

  run_projections-forward :
      (ps : List (AsyncProjection P A)) (s : AsyncState A) (n t : Str)
      → position n t s.checkpoints ≤ position n t (run_projections env topic ps s).1.checkpoints
  unfolding run_projections
  run_projections-forward [] s n t = omega arith
  run_projections-forward (p ∷ ps) s n t =
      let s1 = (run_projection env topic p s).1 in
      elim (Result-cases (run_projection env topic p s).0) [
        | inl (r, e) ↦
            rw (continued p ps s r e)
              (omega (arith, run_projection-forward p s n t, run_projections-forward ps s1 n t))
        | inr (x, e) ↦ rw (stopped p ps s x e) (run_projection-forward p s n t)
      ]

  pub run_projections-IsDone :
      (ps : List (AsyncProjection P A)) (s s' : AsyncState A)
      → run_projections env topic ps s ≡ (ok tt, s')
      → All (IsDone s') ps
  run_projections-IsDone [] s s' h = tt
  run_projections-IsDone (p ∷ ps) s s' h =
      let s1 = (run_projection env topic p s).1 in
      elim (Result-cases (run_projection env topic p s).0) [
        | inr (x, e) ↦ cc (h, stopped p ps s x e)
        | inl (r, e) ↦
            let rest : run_projections env topic ps s1 ≡ (ok tt, s') =
              sym (continued p ps s r e) ∙ h in
            let first : run_projection env topic p s ≡ (ok tt, s1) = ground (arith, e) in
            (
              IsDone-forward p s1 s'
                  (λ n t.
                    subst (λ v. position n t s1.checkpoints ≤ position n t v.1.checkpoints) rest
                      (run_projections-forward ps s1 n t))
                  (run_projection-IsDone p s s1 first),
              run_projections-IsDone ps s1 s' rest,
            )
      ]

  pub All-IsDone :
      (ps : List (AsyncProjection P A)) (s : AsyncState A)
      → All (IsDone s) ps
      → ((run_projections env topic ps s).0 ≡ ok tt)
        × ((run_projections env topic ps s).1.app ≡ s.app)
  unfolding run_projections
  All-IsDone [] s d = (refl, refl)
  All-IsDone (p ∷ ps) s d =
      let s1 = (run_projection env topic p s).1 in
      let over = IsDone-run_projection p s d.0 in
      let rest = All-IsDone ps s1 (
        All-map _ _ (λ q (h : IsDone s q). IsDone-forward q s s1 (run_projection-forward p s) h) ps
          d.1) in
      rw (continued p ps s tt over.0) (rest.0, rest.1 ∙ over.1)

  -- After an event has gone through all projections without an error, it goes through them again
  -- without an error and leaves the read models as they are.
  pub run_projections-run_projections :
      (ps : List (AsyncProjection P A)) (s s' : AsyncState A)
      → run_projections env topic ps s ≡ (ok tt, s')
      → ((run_projections env topic ps s').0 ≡ ok tt)
        × ((run_projections env topic ps s').1.app ≡ s'.app)
  run_projections-run_projections ps s s' h = All-IsDone ps s' (run_projections-IsDone ps s s' h)
