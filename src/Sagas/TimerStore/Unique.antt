-- ===== src/Sagas/TimerStore/Unique.antt =====
-- One pending timer for each id of an instance: what keeps this, and what `release` does to it.
use eventfabric.Base.{
  ℕ, suc, ◌+◌, ◌≤◌, ◌<◌, ◌≡◌, refl, ◌⊎◌, inl, inr, Str, true, ◌&&◌, some, List, [], ◌∷◌, arith,
  count, if◌then◌else◌, Bool-cases, str_eq→eq, ◌==◌,
}
use eventfabric.Sagas.Saga.{TimerMessage}
use eventfabric.Sagas.TimerStore.{
  TimerRow, TimerStore, TimerOwner, TimerStatus, pending, fired, is_pending, is_claimed,
  mark_claimed, matches, new_row, schedule, cancel, set_claimed, mark_fired, release, claim_due,
  due_rows,
}

module _ {M : Type 0} where
  -- How many pending rows an instance has under an id, and how many claimed ones.
  abbrev pub pending_count : TimerOwner → Str → TimerStore M → ℕ
  pending_count owner id = count (λ row. matches row owner (some id) && is_pending row.status)

  abbrev pub claimed_count : TimerOwner → Str → TimerStore M → ℕ
  claimed_count owner id = count (λ row. matches row owner (some id) && is_claimed row.status)

  -- No instance has two pending timers under one id.
  abbrev pub IsUnique : TimerStore M → Type 0
  IsUnique rows = (owner : TimerOwner) (id : Str) → pending_count owner id rows ≤ 1

  new_row-matches :
      (o o' : TimerOwner) (id id' : Str) (at : ℕ) (m : TimerMessage M)
      → matches (new_row o id at m) o' (some id') ≡ true
      → (o ≡ o') × (id ≡ id')
  unfolding matches
  new_row-matches o o' id id' at m h = ground (
    arith,
    str_eq→eq o.tenant_id o'.tenant_id,
    str_eq→eq o.saga_name o'.saga_name,
    str_eq→eq o.instance_id o'.instance_id,
    str_eq→eq id id',
  )

  -- The date, the message and the status of a row do not tell which instance it belongs to.
  matches_record :
      (row : TimerRow M) (at : ℕ) (m : TimerMessage M) (s : TimerStatus) (o : TimerOwner) (id : Str)
      → (matches (record row { fire_at = at; message = m }) o (some id) ≡ matches row o (some id))
        × (matches (record row { status = s }) o (some id) ≡ matches row o (some id))
  unfolding matches
  matches_record row at m s o id = (refl, refl)

  schedule-count :
      (o o' : TimerOwner) (id id' : Str) (at : ℕ) (m : TimerMessage M) (rows : TimerStore M)
      → pending_count o' id' (schedule o id at m rows) ≡ (
          if pending_count o id rows == 0
          then pending_count o' id' rows
            + (if matches (new_row o id at m) o' (some id') then 1 else 0)
          else pending_count o' id' rows)
  unfolding schedule
  schedule-count o o' id id' at m [] = ground arith
  schedule-count o o' id id' at m (row ∷ rows) =
      ground (arith, matches_record row at m pending o' id', schedule-count o o' id id' at m rows)

  schedule-IsUnique :
      (o : TimerOwner) (id : Str) (at : ℕ) (m : TimerMessage M) (rows : TimerStore M)
      → IsUnique rows
      → IsUnique (schedule o id at m rows)
  schedule-IsUnique o id at m rows u o' id' =
      elim (Bool-cases (matches (new_row o id at m) o' (some id'))) [
        | inl same ↦
            let e = new_row-matches o o' id id' at m same in
            ground (arith, schedule-count o o' id id' at m rows, u o' id')
        | inr other ↦ ground (arith, schedule-count o o' id id' at m rows, u o' id')
      ]

  cancel-count :
      (o o' : TimerOwner) (ids : List Str) (id' : Str) (rows : TimerStore M)
      → pending_count o' id' (cancel o ids rows).0 ≤ pending_count o' id' rows
  unfolding cancel
  cancel-count o o' ids id' [] = omega arith
  cancel-count o o' ids id' (row ∷ rows) = ground (arith, cancel-count o o' ids id' rows)

  mark_claimed-count :
      (k : ℕ) (chosen : List (ℕ × TimerRow M)) (o : TimerOwner) (id : Str) (rows : TimerStore M)
      → pending_count o id (mark_claimed k chosen rows) ≤ pending_count o id rows
  unfolding mark_claimed
  mark_claimed-count k chosen o id [] = omega arith
  mark_claimed-count k chosen o id (row ∷ rows) =
      ground (arith, mark_claimed-count (suc k) chosen o id rows)

  set_fired-count :
      (o o' : TimerOwner) (id id' : Str) (rows : TimerStore M)
      → pending_count o' id' (set_claimed o id fired rows) ≤ pending_count o' id' rows
  unfolding set_claimed
  set_fired-count o o' id id' [] = omega arith
  set_fired-count o o' id id' (row ∷ rows) = ground (arith, set_fired-count o o' id id' rows)

  -- Giving a claimed timer back adds a pending row, whatever is pending under its id by then.
  pub release-count :
      (o : TimerOwner) (id : Str) (rows : TimerStore M)
      → 0 < claimed_count o id rows
      → pending_count o id (release o id rows) ≡ suc (pending_count o id rows)
  unfolding release set_claimed
  release-count o id [] h = absurd (omega arith)
  release-count o id (row ∷ rows) h =
      ground (arith, matches_record row 0 row.message pending o id, release-count o id rows)

-- A call of one of the store's operations.
pub data TimerCall (M : Type 0) : Type 0 where
  schedules : TimerOwner → Str → ℕ → TimerMessage M → TimerCall M
  cancels : TimerOwner → List Str → TimerCall M
  claims : ℕ → ℕ → TimerCall M
  fires : TimerOwner → Str → TimerCall M
  releases : TimerOwner → Str → TimerCall M

module _ {M : Type 0} where
  pub after_call : TimerStore M → TimerCall M → TimerStore M
  after_call rows (schedules o id at m) = schedule o id at m rows
  after_call rows (cancels o ids) = (cancel o ids rows).0
  after_call rows (claims now n) = (claim_due now n rows).0
  after_call rows (fires o id) = mark_fired o id rows
  after_call rows (releases o id) = release o id rows

  -- A release gives back a timer under whose id nothing is pending; other calls are not restricted.
  abbrev pub IsSafeCall : TimerStore M → TimerCall M → Type 0
  IsSafeCall rows (releases o id) = pending_count o id rows ≡ 0
  IsSafeCall rows _ = Unit {0}

  -- A row that answers to two keys shows that they are one key.
  matches_unique :
      (row : TimerRow M) (o o' : TimerOwner) (id id' : Str)
      → matches row o (some id) ≡ true
      → matches row o' (some id') ≡ true
      → (o ≡ o') × (id ≡ id')
  unfolding matches
  matches_unique row o o' id id' h h' = ground (
    arith,
    str_eq→eq row.tenant_id o.tenant_id,
    str_eq→eq row.tenant_id o'.tenant_id,
    str_eq→eq row.saga_name o.saga_name,
    str_eq→eq row.saga_name o'.saga_name,
    str_eq→eq row.instance_id o.instance_id,
    str_eq→eq row.instance_id o'.instance_id,
    str_eq→eq row.id id,
    str_eq→eq row.id id',
  )

  -- Giving a timer back changes no count of another key, and its own by at most one.
  release-count_le :
      (o o' : TimerOwner) (id id' : Str) (rows : TimerStore M)
      → (pending_count o' id' (release o id rows) ≤ pending_count o' id' rows)
        ⊎ ((o ≡ o')
            × (id ≡ id')
            × (pending_count o' id' (release o id rows) ≤ suc (pending_count o' id' rows)))
  unfolding release set_claimed
  release-count_le o o' id id' [] = inl (omega arith)
  release-count_le o o' id id' (row ∷ rows) = ground (
    arith,
    matches_unique row o o' id id',
    matches_record row 0 row.message pending o' id',
    release-count_le o o' id id' rows,
  )

  -- Every call keeps the timers of an instance unique by id, provided that a timer is only given
  -- back while none is pending under its id.
  pub after_call-IsUnique :
      (rows : TimerStore M) (c : TimerCall M)
      → IsSafeCall rows c
      → IsUnique rows
      → IsUnique (after_call rows c)
  unfolding after_call mark_fired claim_due
  after_call-IsUnique rows (schedules o id at m) s u o' id' =
      schedule-IsUnique o id at m rows u o' id'
  after_call-IsUnique rows (cancels o ids) s u o' id' =
      omega (arith, cancel-count o o' ids id' rows, u o' id')
  after_call-IsUnique rows (claims now n) s u o' id' =
      omega (arith, mark_claimed-count 0 (due_rows now n rows) o' id' rows, u o' id')
  after_call-IsUnique rows (fires o id) s u o' id' =
      omega (arith, set_fired-count o o' id id' rows, u o' id')
  after_call-IsUnique rows (releases o id) s u o' id' = elim (release-count_le o o' id id' rows) [
    | inl same ↦ omega (arith, same, u o' id')
    | inr (eo, ei, le) ↦ ground (arith, le)
  ]
