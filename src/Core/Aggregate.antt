-- ===== src/Core/Aggregate.antt =====
-- packages/core/src/aggregates/aggregate-root.ts. A handler, which changes the state in place, is a
-- function on states.
pub mod Replay
use eventfabric.Base.{
  ℕ, ltb, ◌≡◌, refl, Str, codes, Bool, true, false, Option, none, some, List, [], ◌∷◌, ◌++◌, Result,
  ok, err, Error, thrown, Action, pure, throw, modify, ◌>>=◌, ◌>>◌, if◌then◌else◌, decimal,
}
use eventfabric.Core.Types.{Event}

pub record Aggregate (S P : Type 0) : Type 0 where
  pub id : Str
  pub version : ℕ
  pub state : S
  pub pending : List (Event P)

-- `HandlerMap`: the handler of an event type, where there is one.
abbrev pub HandlerMap : Type 0 → Type 0 → Type 0
HandlerMap S P = Str → Option (S → Event P → S)

module _ {S P : Type 0} (handlers : HandlerMap S P) where
  unfoldable pub apply : Event P → Bool → Action (Aggregate S P) (Unit {0})
  apply event is_new agg = elim (handlers event.type) [
    | none ↦ (err (thrown (codes "No handler for event type: " ++ event.type)), agg)
    | some handler ↦ (
      ok tt,
      record agg {
        state = handler agg.state event;
        pending = if is_new then agg.pending ++ event ∷ [] else agg.pending;
      },
    )
  ]

  -- `loadFromHistory` on the payloads with their versions.
  unfoldable pub load_from_history : List (Event P × ℕ) → Action (Aggregate S P) (Unit {0})
  unfolding apply
  load_from_history [] = pure tt
  load_from_history ((event, version) ∷ history) =
      apply event false
      >> modify (λ agg. record agg { version = version })
      >> load_from_history history

  -- `validateEvent`; the text of an event in the message is `JSON.stringify`.
  abbrev pub validate_event : (Event P → Str) → Event P → Action (Aggregate S P) (Unit {0})
  validate_event stringify event = elim event.type [
    | [] ↦ throw (thrown (codes "Event missing or invalid 'type' field: " ++ stringify event))
    | c ∷ cs ↦
        if ltb event.version 1
        then throw (
            thrown (
              codes "Event '"
              ++ (event.type
                  ++ (codes "' has invalid version: "
                      ++ (decimal event.version
                          ++ codes ". Version must be a positive integer.")))))
        else pure tt
  ]

  -- `raise`; the flag is false in production.
  unfoldable pub raise : Bool → (Event P → Str) → List (Event P) → Action (Aggregate S P) (Unit {0})
  unfolding apply
  raise validates stringify [] = pure tt
  raise validates stringify (event ∷ events) =
      (if validates then validate_event stringify event else pure tt)
      >> apply event true
      >> raise validates stringify events

  -- The state that a list of events leads to; none where an event has no handler.
  unfoldable pub replay : S → List (Event P) → Option S
  replay s [] = some s
  replay s (e ∷ es) = elim (handlers e.type) [
    | none ↦ none
    | some handler ↦ replay (handler s e) es
  ]

abbrev pub pull_pending_events : {S P : Type 0} → Aggregate S P → List (Event P) × Aggregate S P
pull_pending_events agg = (agg.pending, record agg { pending = [] })
