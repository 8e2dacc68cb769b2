-- ===== src/Postgres/Anchors/Alarms.antt =====
-- Sequences of calls of packages/postgres/src/chain-anchor-sealer.ts and of
-- packages/postgres/src/pg-event-store.ts.
use eventfabric.Base.{
  ℕ, ◌≡◌, refl, Str, Bool, List, [], ◌∷◌, keep, length, ok, Result-cases, inl, inr, arith,
  with_transaction,
}
use eventfabric.Core.Types.{Dismissal}
use eventfabric.Core.Projections.Outbox.{Outbox}
use eventfabric.Postgres.EventStore.Tables.{Backend, PgEventStore, find_stream}
use eventfabric.Postgres.EventStore.Rows.{AppendParams}
use eventfabric.Postgres.EventStore.Reads.{dismiss}
use eventfabric.Postgres.EventStore.Append.{append}
use eventfabric.Postgres.Anchors.Tables.{AnchorDb, is_anchor_of, latest_sealed}
use eventfabric.Postgres.Anchors.Seal.{seal}
use eventfabric.Postgres.Anchors.Rounds.{seal_each, run_once}
use eventfabric.Postgres.Anchors.Check.{verify_anchors}
use eventfabric.Postgres.Anchors.Healthy.{IsHealthy, intact_anchors, verify_anchors-IsHealthy}
use eventfabric.Postgres.Anchors.Healthy.Sealed.{seal-IsHealthy, anchor_genesis-ok}
use eventfabric.Postgres.Anchors.Healthy.Cases.{IsTextOrder}
use eventfabric.Postgres.Anchors.Healthy.Appended.{KeepsChain, append-IsHealthy, dismiss-IsHealthy}

-- The tables before the first call.
abbrev pub no_rows : {P : Type 0} → Outbox → ℕ → ℕ → AnchorDb P
no_rows outbox position id = record {
  db = record {
    events = [];
    stream_versions = [];
    outbox = outbox;
    next_position = position;
    next_outbox_id = id;
  };
  anchors = [];
  members = [];
}

module _ {P : Type 0} (backend : Backend P) (secret : Str) (text_before : Str → Str → Bool) where
  -- One call on the tables, whether it fails or not: of `append`, by any store, on a stream that is
  -- chained or never was; of `dismiss`; of `seal`; or a round of the runner.
  pub data Step : AnchorDb P → AnchorDb P → Type 0 where
    appended :
        (random_uuid : ℕ → Str) (now : ℕ) (store : PgEventStore P) (tenant : Str)
        (p : AppendParams P) (st : AnchorDb P)
        → KeepsChain store tenant p st.db
        → Step st (record st { db = (append backend random_uuid now store tenant p st.db).1 })
    dismissed :
        (tenant id : Str) (info : Dismissal) (st : AnchorDb P)
        → Step st (record st { db = dismiss tenant id info st.db })
    sealed :
        (tenant : Str) (st : AnchorDb P) → Step st (seal backend secret text_before tenant st).1
    round : (st : AnchorDb P) → Step st (run_once backend secret text_before st).2

  pub data Reach (start : AnchorDb P) : AnchorDb P → Type 0 where
    here : Reach start start
    next : {st st' : AnchorDb P} → Reach start st → Step st st' → Reach start st'

module _ {P : Type 0} (backend : Backend P) (secret : Str) (text_before : Str → Str → Bool)
    (order : IsTextOrder text_before) where
  transaction-IsHealthy :
      (tenant : Str) (st : AnchorDb P)
      → IsHealthy backend secret text_before st
      → IsHealthy backend secret text_before
          (with_transaction (seal backend secret text_before tenant) st).1
  transaction-IsHealthy tenant st h =
      let call = seal backend secret text_before tenant in
      elim (Result-cases (call st).0) [
        | inl (r, e) ↦
            let kept : (with_transaction call st).1 ≡ (call st).1 = ground (arith, e) in
            rw kept (seal-IsHealthy backend secret text_before order tenant st h)
        | inr (x, e) ↦ let kept : (with_transaction call st).1 ≡ st = ground (arith, e) in rw kept h
      ]

  seal_each-IsHealthy :
      (tenants : List Str) (st : AnchorDb P)
      → IsHealthy backend secret text_before st
      → IsHealthy backend secret text_before (seal_each backend secret text_before tenants st).2
  unfolding seal_each
  seal_each-IsHealthy [] st h = h
  seal_each-IsHealthy (t ∷ ts) st h =
      let first = with_transaction (seal backend secret text_before t) st in
      let later = seal_each-IsHealthy ts first.1 (transaction-IsHealthy t st h) in
      let call = seal_each backend secret text_before in
      elim (Result-cases first.0) [
        | inl (r, e) ↦
            let kept : (call (t ∷ ts) st).2 ≡ (call ts first.1).2 = ground (arith, e) in
            rw kept later
        | inr (x, e) ↦
            let kept : (call (t ∷ ts) st).2 ≡ (call ts first.1).2 = ground (arith, e) in
            rw kept later
      ]

  Step-IsHealthy :
      {st st' : AnchorDb P}
      → Step backend secret text_before st st'
      → IsHealthy backend secret text_before st
      → IsHealthy backend secret text_before st'
  unfolding run_once
  Step-IsHealthy (Step.appended random_uuid now store tenant p st keeps) h =
      append-IsHealthy backend random_uuid now store secret text_before tenant p st keeps h
  Step-IsHealthy (Step.dismissed tenant id info st) h =
      dismiss-IsHealthy backend secret text_before tenant id info st h
  Step-IsHealthy (Step.sealed tenant st) h =
      seal-IsHealthy backend secret text_before order tenant st h
  Step-IsHealthy (Step.round st) h = seal_each-IsHealthy _ st h

  pub Reach-IsHealthy :
      {st st' : AnchorDb P}
      → IsHealthy backend secret text_before st
      → Reach backend secret text_before st st'
      → IsHealthy backend secret text_before st'
  Reach-IsHealthy h here = h
  Reach-IsHealthy h (next r s) = Step-IsHealthy s (Reach-IsHealthy h r)

  pub no_rows-IsHealthy :
      (outbox : Outbox) (position id : ℕ)
      → IsHealthy backend secret text_before (no_rows outbox position id)
  unfolding find_stream
  no_rows-IsHealthy outbox position id = record {
    consistent = record { numbered = λ s. refl; started = λ s v e. cc };
    heads = tt;
    sealed = tt;
    numbered = tt;
    linked = λ t g e. tt;
  }

  -- There is no false alarm: behind any sequence of appends, dismissals, seals and rounds of the
  -- runner from empty tables, each call successful or not, where appends are to streams that are
  -- chained or never were, and texts are ordered linearly, verify_anchors finds every tenant
  -- intact, with all its anchors and all its sealed streams checked.
  pub verify_anchors-Reach :
      (outbox : Outbox) (position id : ℕ) {st : AnchorDb P}
      → Reach backend secret text_before (no_rows outbox position id) st
      → (tenant : Str)
      → verify_anchors backend secret text_before tenant st
        ≡ ok (
            intact_anchors tenant
              (length (keep (is_anchor_of tenant) st.anchors))
              (length (latest_sealed text_before tenant st.members)))
  verify_anchors-Reach outbox position id {st} r tenant =
      let (genesis, g) = anchor_genesis-ok backend secret tenant in
      verify_anchors-IsHealthy backend secret text_before tenant genesis st
        (Reach-IsHealthy (no_rows-IsHealthy outbox position id) r) g
