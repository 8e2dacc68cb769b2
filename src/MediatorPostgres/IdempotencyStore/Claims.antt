-- ===== src/MediatorPostgres/IdempotencyStore/Claims.antt =====
-- Claims of slots of packages/mediator-postgres/src/pg-idempotency-store.ts:
-- of completed ones, and of those that are open.
use eventfabric.Base.{
  ℕ, ◌≡◌, ◌≢◌, refl, Str, true, false, Option, some, or_else, List, [], ◌∷◌, str_eq_refl, arith,
  Option-cases, Bool-cases, inl, inr,
}
use eventfabric.Mediator.Idempotency.{claimed, done, busy}
use eventfabric.MediatorPostgres.IdempotencyStore.{
  SlotStatus, in_flight, completed, failed, SlotRow, has_slot, insert_or_reclaim, insert_or_nothing,
  find_slot, update_where, answer, claim, complete, is_failed, reclaimed, new_slot,
}
use eventfabric.MediatorPostgres.IdempotencyStore.Done.{
  result_of, completed_slot, failed_open, answer-done, IsDone, Keeps, insert_or_reclaim-IsDone,
  insert_or_nothing-IsDone,
}

module _ {R : Type 0} (null : R) (through_jsonb : R → R) where
  module _ (t k : Str) (r : R) (created : ℕ) where
    -- The claims of the slot itself.
    insert_or_reclaim-taken :
        (type id : Str) (now : ℕ) (rows : List (SlotRow R))
        → IsDone null through_jsonb t k r created rows
        → (insert_or_reclaim t k type id now rows).1 ≡ false
    unfolding completed_slot insert_or_reclaim
    insert_or_reclaim-taken type id now [] h = cc
    insert_or_reclaim-taken type id now (row ∷ rows) h = ground (
      arith,
      failed_open null through_jsonb row.status row.result row.created_at,
      insert_or_reclaim-taken type id now rows,
    )

    find-IsDone :
        (rows : List (SlotRow R))
        → IsDone null through_jsonb t k r created rows
        → (row : SlotRow R) × (find_slot t k rows ≡ some row)
          × (result_of null through_jsonb row.status row.result row.created_at ≡ some (r, created))
    unfolding completed_slot find_slot
    find-IsDone [] h = cc
    find-IsDone (row ∷ rows) h = elim (Bool-cases (has_slot t k row)) [
      | inl e ↦ (row, ground arith, ground arith)
      | inr e ↦
          let (q, found, result) = find-IsDone rows (ground arith) in (q, ground arith, result)
    ]

    pub claim-IsDone :
        (between later : List (SlotRow R) → List (SlotRow R)) (tx_tenant : Str)
        (tenant : Option Str) (key type id : Str) (now : ℕ) (rows : List (SlotRow R))
        → Keeps null through_jsonb t k r created between
        → Keeps null through_jsonb t k r created later
        → IsDone null through_jsonb t k r created rows
        → IsDone null through_jsonb t k r created
            (claim null between later tx_tenant tenant key type id now rows).1
    unfolding claim
    claim-IsDone between later tx_tenant tenant key type id now rows kb kl h =
        let q = or_else tenant tx_tenant in
        let first =
          insert_or_reclaim-IsDone null through_jsonb t k r created q key type id now rows h in
        let seen = kb (insert_or_reclaim q key type id now rows).0 first in
        let retry =
          insert_or_nothing-IsDone null through_jsonb t k r created q key type id now _
            (kl _ seen) in
        elim (Bool-cases (insert_or_reclaim q key type id now rows).1) [
          | inl e ↦ ground arith
          | inr e ↦
              elim (Option-cases
                (find_slot q key (between (insert_or_reclaim q key type id now rows).0))) [
                  | inl g ↦ ground arith
                  | inr (row, g) ↦ ground arith
                ]
        ]

    pub claim-done :
        (between later : List (SlotRow R) → List (SlotRow R)) (tx_tenant : Str)
        (tenant : Option Str) (type id : Str) (now : ℕ) (rows : List (SlotRow R))
        → Keeps null through_jsonb t k r created between
        → or_else tenant tx_tenant ≡ t
        → IsDone null through_jsonb t k r created rows
        → (claim null between later tx_tenant tenant k type id now rows).0 ≡ done r
    unfolding claim
    claim-done between later tx_tenant tenant type id now rows kb same h =
        let taken = insert_or_reclaim-taken type id now rows h in
        let seen =
          kb _ (insert_or_reclaim-IsDone null through_jsonb t k r created t k type id now rows h) in
        let (row, found, result) = find-IsDone _ seen in
        let answered = answer-done null through_jsonb row r created result in ground arith

  module _ (t k type id : Str) (now : ℕ) where
    insert_or_reclaim-mine :
        (rows : List (SlotRow R))
        → (insert_or_reclaim t k type id now rows).1 ≡ true
        → (row : SlotRow R) × (find_slot t k (insert_or_reclaim t k type id now rows).0 ≡ some row)
          × (row.created_at ≡ now)
    unfolding insert_or_reclaim find_slot has_slot
    insert_or_reclaim-mine [] h =
        (new_slot t k type id now, ground (arith, str_eq_refl t, str_eq_refl k), refl)
    insert_or_reclaim-mine (row ∷ rows) h = elim (Bool-cases (has_slot t k row)) [
      | inl e ↦ elim (Bool-cases (is_failed row.status)) [
        | inl f ↦ (reclaimed type id now row, ground arith, refl)
        | inr f ↦ absurd (ground arith)
      ]
      | inr e ↦
          let (q, found, made) = insert_or_reclaim-mine rows (ground arith) in
          (q, ground arith, made)
    ]

    insert_or_nothing-mine :
        (rows : List (SlotRow R))
        → (insert_or_nothing t k type id now rows).1 ≡ true
        → (row : SlotRow R) × (find_slot t k (insert_or_nothing t k type id now rows).0 ≡ some row)
          × (row.created_at ≡ now)
    unfolding insert_or_nothing find_slot has_slot
    insert_or_nothing-mine [] h =
        (new_slot t k type id now, ground (arith, str_eq_refl t, str_eq_refl k), refl)
    insert_or_nothing-mine (row ∷ rows) h = elim (Bool-cases (has_slot t k row)) [
      | inl e ↦ absurd (ground arith)
      | inr e ↦
          let (q, found, made) = insert_or_nothing-mine rows (ground arith) in
          (q, ground arith, made)
    ]

    answer-not_claimed : (row : SlotRow R) → answer null row ≢ claimed
    answer-not_claimed row = go row.status
      where
        go :
            (s : SlotStatus)
            → elim s [
              | completed ↦ done (or_else row.result null)
              | in_flight ↦ busy
              | failed ↦ busy
            ]
              ≢ claimed
        go in_flight h = cc
        go completed h = cc
        go failed h = cc

    pub claim-mine :
        (between later : List (SlotRow R) → List (SlotRow R)) (tx_tenant : Str)
        (tenant : Option Str) (rows : List (SlotRow R))
        → or_else tenant tx_tenant ≡ t
        → (claim null between later tx_tenant tenant k type id now rows).0 ≡ claimed
        → (row : SlotRow R) × (find_slot t k
              (claim null between later tx_tenant tenant k type id now rows).1
            ≡ some row)
          × (row.created_at ≡ now)
    unfolding claim
    claim-mine between later tx_tenant tenant rows same h =
        elim (Bool-cases (insert_or_reclaim t k type id now rows).1) [
          | inl e ↦
              let (row, found, made) = insert_or_reclaim-mine rows e in (row, ground arith, made)
          | inr e ↦
              let seen = between (insert_or_reclaim t k type id now rows).0 in
              elim (Option-cases (find_slot t k seen)) [
                | inl g ↦
                    let (row, found, made) = insert_or_nothing-mine (later seen) (ground arith) in
                    (row, ground arith, made)
                | inr (row, g) ↦ absurd (ground (arith, answer-not_claimed row))
              ]
        ]

    pub complete-IsDone_mine :
        (tx_tenant : Str) (tenant : Option Str) (result : R) (at : ℕ) (row : SlotRow R)
        (rows : List (SlotRow R))
        → or_else tenant tx_tenant ≡ t
        → find_slot t k rows ≡ some row
        → IsDone null through_jsonb t k
            (through_jsonb result)
            row.created_at
            (complete through_jsonb tx_tenant k tenant result at rows)
    unfolding complete update_where find_slot completed_slot has_slot
    complete-IsDone_mine tx_tenant tenant result at row [] same h = cc
    complete-IsDone_mine tx_tenant tenant result at row (q ∷ rows) same h =
        ground (arith, complete-IsDone_mine tx_tenant tenant result at row rows same)
