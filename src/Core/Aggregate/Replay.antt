-- ===== src/Core/Aggregate/Replay.antt =====
-- Loading a history and raising events against a replay of the events, for
-- packages/core/src/aggregates/aggregate-root.ts.
use eventfabric.Base.{
  ℕ, ◌≡◌, ◌∙◌, some, List, [], ◌∷◌, ◌++◌, map, arith, ok, Option-cases, inl, inr,
}
use eventfabric.Core.Types.{Event}
use eventfabric.Core.Aggregate.{Aggregate, HandlerMap, load_from_history, replay}

-- The version of the last of a history, or one from before.
abbrev pub last_loaded : {P : Type 0} → ℕ → List (Event P × ℕ) → ℕ
last_loaded v [] = v
last_loaded v ((e, n) ∷ history) = last_loaded n history

module _ {S P : Type 0} (handlers : HandlerMap S P) where
  pub load_from_history-replay :
      (history : List (Event P × ℕ)) (agg : Aggregate S P) {s : S}
      → replay handlers agg.state (map (λ h. h.0) history) ≡ some s
      → load_from_history handlers history agg
        ≡ (ok tt, record agg { state = s; version = last_loaded agg.version history })
  unfolding load_from_history replay
  load_from_history-replay [] agg r = ground arith
  load_from_history-replay ((e, n) ∷ history) agg {s} r = elim (Option-cases (handlers e.type)) [
    | inl unhandled ↦ absurd (ground (arith, unhandled))
    | inr (h, handled) ↦
        let next : Aggregate S P = record agg { state = h agg.state e; version = n } in
        let step : load_from_history handlers ((e, n) ∷ history) agg
            ≡ load_from_history handlers history next =
          ground (arith, handled) in
        step ∙ load_from_history-replay history next (ground (arith, handled))
  ]

  pub replay-append :
      (es fs : List (Event P)) (s : S) {t : S}
      → replay handlers s es ≡ some t
      → replay handlers s (es ++ fs) ≡ replay handlers t fs
  unfolding replay
  replay-append [] fs s r = ground arith
  replay-append (e ∷ es) fs s {t} r = elim (Option-cases (handlers e.type)) [
    | inl unhandled ↦ absurd (ground (arith, unhandled))
    | inr (h, handled) ↦ rw handled (replay-append es fs (h s e) (ground (arith, handled)))
  ]
