-- ===== src/Core/Projections/Async/Claims.antt =====
-- The rows that a claim of packages/postgres/src/outbox/pg-outbox-store.ts gives.
use eventfabric.Base.{
  ℕ, zero, suc, ◌≡◌, ◌≢◌, refl, sym, subst, ◌⊎◌, Str, true, ◌&&◌, Option, List, [], ◌∷◌, map, arith,
  ◌==◌, All, Distinct, Bool-cases, inl, inr,
}
use eventfabric.Core.Projections.Outbox.{
  OutboxEntry, OutboxRow, is_free, has_topic, lock, row_of, claim_entries,
}
use eventfabric.Core.Projections.Async.Stranded.{entries_of, IsLocked}

abbrev pub id_of : OutboxEntry → ℕ
id_of e = e.id

abbrev pub row_id : OutboxRow → ℕ
row_id r = r.id

-- The ids of the table and of the rows are those of the table before.
claim_entries-ids :
    (Q : ℕ → Type 0) (n : ℕ) (worker : Str) (topic : Option Str) (es : List OutboxEntry)
    → All (λ e. Q e.id) es
    → All (λ e. Q e.id) (claim_entries n worker topic es).0
      × All (λ r. Q r.id) (claim_entries n worker topic es).1
unfolding claim_entries
claim_entries-ids Q zero worker topic es h = (h, tt)
claim_entries-ids Q (suc n) worker topic [] h = (tt, tt)
claim_entries-ids Q (suc n) worker topic (e ∷ es) (h, hs) =
    elim (Bool-cases (is_free e.locked_by && has_topic topic e.topic)) [
      | inl taken ↦
          let (a, b) = claim_entries-ids Q n worker topic es hs in rw taken ((h, a), (h, b))
      | inr passed ↦
          let (a, b) = claim_entries-ids Q (suc n) worker topic es hs in rw passed ((h, a), b)
    ]

no_entries : (q : ℕ) (es : List OutboxEntry) → All (λ e. e.id ≢ q) es → entries_of q es ≡ []
no_entries q [] h = refl
no_entries q (e ∷ es) h = ground (arith, h.0, no_entries q es h.1)

entries_of-cons :
    (q : ℕ) (e : OutboxEntry) (es : List OutboxEntry)
    → e.id ≢ q
    → entries_of q (e ∷ es) ≡ entries_of q es
entries_of-cons q e es ne = ground arith

IsLocked-cons :
    (q : ℕ) (e : OutboxEntry) (es : List OutboxEntry)
    → e.id ≢ q
    → IsLocked q es
    → IsLocked q (e ∷ es)
IsLocked-cons q e es ne h = rw (entries_of-cons q e es ne) h

IsLocked-lock :
    (worker : Str) (e : OutboxEntry) (es : List OutboxEntry)
    → All (λ x. x.id ≢ e.id) es
    → IsLocked e.id (lock worker e ∷ es)
IsLocked-lock worker e es h =
    let same : (e.id == e.id) ≡ true = ground arith in rw (same, no_entries e.id es h) (refl, tt)

apart :
    (e : OutboxEntry) (es : List OutboxEntry)
    → All (λ n. e.id ≢ n) (map id_of es)
    → All (λ x. x.id ≢ e.id) es
apart e [] h = tt
apart e (x ∷ es) h = (λ d. h.0 (sym d), apart e es h.1)

-- What a claim gives and leaves, with the entry at the head claimed and passed over.
abbrev claimed_first :
    Str → OutboxEntry → List OutboxEntry × List OutboxRow → List OutboxEntry × List OutboxRow
claimed_first worker e (es, rs) = (lock worker e ∷ es, row_of (lock worker e) ∷ rs)

abbrev passed_first :
    OutboxEntry → List OutboxEntry × List OutboxRow → List OutboxEntry × List OutboxRow
passed_first e (es, rs) = (e ∷ es, rs)

claim_entries-cases :
    (n : ℕ) (worker : Str) (topic : Option Str) (e : OutboxEntry) (es : List OutboxEntry)
    → (claim_entries (suc n) worker topic (e ∷ es)
        ≡ claimed_first worker e (claim_entries n worker topic es))
      ⊎ (claim_entries (suc n) worker topic (e ∷ es)
          ≡ passed_first e (claim_entries (suc n) worker topic es))
unfolding claim_entries
claim_entries-cases n worker topic e es =
    elim (Bool-cases (is_free e.locked_by && has_topic topic e.topic)) [
      | inl taken ↦ inl (rw taken refl)
      | inr passed ↦ inr (rw passed refl)
    ]

-- The rows are locked and have distinct ids.
pub record AreClaimed (t : List OutboxEntry × List OutboxRow) : Type 0 where
  pub locked : All (λ r. IsLocked r.id t.0) t.1
  pub distinct : Distinct (map row_id t.1)

All-IsLocked :
    (e : OutboxEntry) (es : List OutboxEntry) (rs : List OutboxRow)
    → All (λ r. r.id ≢ e.id) rs
    → All (λ r. IsLocked r.id es) rs
    → All (λ r. IsLocked r.id (e ∷ es)) rs
All-IsLocked e es [] h k = tt
All-IsLocked e es (r ∷ rs) h k =
    (IsLocked-cons r.id e es (λ d. h.0 (sym d)) k.0, All-IsLocked e es rs h.1 k.1)

All-row_id :
    (i : ℕ) (rs : List OutboxRow) → All (λ r. r.id ≢ i) rs → All (λ n. i ≢ n) (map row_id rs)
All-row_id i [] h = tt
All-row_id i (r ∷ rs) h = (λ d. h.0 (sym d), All-row_id i rs h.1)

-- Where ids are distinct, the rows of a claim are locked and have distinct ids.
pub claim_entries-AreClaimed :
    (n : ℕ) (worker : Str) (topic : Option Str) (es : List OutboxEntry)
    → Distinct (map id_of es)
    → AreClaimed (claim_entries n worker topic es)
unfolding claim_entries
claim_entries-AreClaimed zero worker topic es h = record { locked = tt; distinct = tt }
claim_entries-AreClaimed (suc n) worker topic [] h = record { locked = tt; distinct = tt }
claim_entries-AreClaimed (suc n) worker topic (e ∷ es) (h, hs) =
    let far = apart e es h in
    elim (claim_entries-cases n worker topic e es) [
      | inl taken ↦
          let (a, b) = claim_entries-ids (λ i. i ≢ e.id) n worker topic es far in
          let rest = claim_entries-AreClaimed n worker topic es hs in
          subst AreClaimed (sym taken) record {
            locked = (IsLocked-lock worker e _ a, All-IsLocked (lock worker e) _ _ b rest.locked);
            distinct = (All-row_id e.id _ b, rest.distinct);
          }
      | inr passed ↦
          let (a, b) = claim_entries-ids (λ i. i ≢ e.id) (suc n) worker topic es far in
          let rest = claim_entries-AreClaimed (suc n) worker topic es hs in
          subst AreClaimed (sym passed)
            record { locked = All-IsLocked e _ _ b rest.locked; distinct = rest.distinct }
    ]
