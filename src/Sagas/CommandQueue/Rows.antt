-- ===== src/Sagas/CommandQueue/Rows.antt =====
-- Rows by their ids: numbering, and what acknowledging and releasing change.
use eventfabric.Base.{
  ℕ, zero, suc, ◌<◌, ◌≡◌, refl, ap, ◌∙◌, ◌≢◌, Str, Option, none, some, List, [], ◌∷◌, ◌++◌, map,
  arith, All, All-append, Distinct, if◌then◌else◌, decimal, decimal-injective, str_eq, str_eq→eq,
  str_eq_refl,
}
use eventfabric.Mediator.Command.{Command}
use eventfabric.Sagas.CommandQueue.{
  Row, CommandQueue, RowStatus, empty_queue, enqueue, claim_batch, update_row, ack,
  release_with_error,
}
use eventfabric.Sagas.CommandQueue.Claim.{claim_batch_lem}

-- `String(1)`, ..., `String(n)`
pub ids_upto : ℕ → List Str
ids_upto zero = []
ids_upto (suc n) = ids_upto n ++ (decimal (suc n) ∷ [])

abbrev pub ids : {C : Type 0} → CommandQueue C → List Str
ids q = map (λ row. row.id) q.rows

-- The rows carry the ids that the counter has handed out, in order.
pub record IsNumbered {C : Type 0} (q : CommandQueue C) : Type 0 where
  pub handed_out : ℕ
  pub next : q.next_id ≡ suc handed_out
  pub numbered : ids q ≡ ids_upto handed_out

-- A call of one of the store's operations.
pub data QueueCall (C : Type 0) : Type 0 where
  enqueues : Str → Str → Str → Command C → Option Str → ℕ → QueueCall C
  claims : ℕ → ℕ → QueueCall C
  acks : Str → QueueCall C
  releases : Str → Str → Option ℕ → QueueCall C

module _ {C : Type 0} where
  pub after_call : CommandQueue C → QueueCall C → CommandQueue C
  after_call q (enqueues t s i c e now) = enqueue t s i c e now q
  after_call q (claims n now) = (claim_batch n now q).0
  after_call q (acks id) = ack id q
  after_call q (releases id m d) = release_with_error id m d q

  pub after_calls : CommandQueue C → List (QueueCall C) → CommandQueue C
  after_calls q [] = q
  after_calls q (c ∷ cs) = after_calls (after_call q c) cs

  update_row-ids :
      (id : Str) (f : Row C → Row C) (rows : List (Row C))
      → ((row : Row C) → (f row).id ≡ row.id)
      → map (λ row. row.id) (update_row id f rows) ≡ map (λ row. row.id) rows
  unfolding update_row
  update_row-ids id f [] h = refl
  update_row-ids id f (row ∷ rows) h = ground (arith, h row, update_row-ids id f rows h)

  ids-snoc :
      (rows : List (Row C)) (row : Row C)
      → map (λ r. r.id) (rows ++ row ∷ []) ≡ map (λ r. r.id) rows ++ row.id ∷ []
  ids-snoc [] row = refl
  ids-snoc (r ∷ rows) row = rw (ids-snoc rows row)

  after_call-IsNumbered :
      (q : CommandQueue C) (c : QueueCall C) → IsNumbered q → IsNumbered (after_call q c)
  unfolding after_call claim_batch enqueue ack release_with_error ids_upto
  after_call-IsNumbered q (enqueues t s i c e now) v = record {
    handed_out = suc v.handed_out;
    next = ap suc v.next;
    numbered = ids-snoc q.rows _ ∙ (rw (v.numbered, v.next));
  }
  after_call-IsNumbered q (claims n now) v = record {
    handed_out = v.handed_out;
    next = v.next;
    numbered = (claim_batch_lem n now q).3 ∙ v.numbered;
  }
  after_call-IsNumbered q (acks id) v = record {
    handed_out = v.handed_out;
    next = v.next;
    numbered = update_row-ids id _ q.rows (λ row. refl) ∙ v.numbered;
  }
  after_call-IsNumbered q (releases id m d) v = record {
    handed_out = v.handed_out;
    next = v.next;
    numbered = update_row-ids id _ q.rows (λ row. refl) ∙ v.numbered;
  }

  after_calls-IsNumbered :
      (q : CommandQueue C) (cs : List (QueueCall C)) → IsNumbered q → IsNumbered (after_calls q cs)
  unfolding after_calls
  after_calls-IsNumbered q [] v = v
  after_calls-IsNumbered q (c ∷ cs) v =
      after_calls-IsNumbered (after_call q c) cs (after_call-IsNumbered q c v)

ids_upto-All : (n m : ℕ) → n < m → All (λ s. s ≢ decimal m) (ids_upto n)
unfolding ids_upto
ids_upto-All zero m h = tt
ids_upto-All (suc n) m h =
    All-append (λ s. s ≢ decimal m) (ids_upto n) (decimal (suc n) ∷ [])
      (ids_upto-All n m (omega arith))
      ((λ e. absurd (omega (arith, decimal-injective (suc n) m e)), tt))

Distinct-snoc {ℓ} :
    {A : Type ℓ} (xs : List A) (y : A) → Distinct xs → All (λ x. x ≢ y) xs → Distinct (xs ++ y ∷ [])
Distinct-snoc [] y d h = (tt, tt)
Distinct-snoc (x ∷ xs) y d h = (All-append _ xs (y ∷ []) d.0 (h.0, tt), Distinct-snoc xs y d.1 h.1)

ids_upto-Distinct : (n : ℕ) → Distinct (ids_upto n)
unfolding ids_upto
ids_upto-Distinct zero = tt
ids_upto-Distinct (suc n) =
    Distinct-snoc (ids_upto n) (decimal (suc n)) (ids_upto-Distinct n)
      (ids_upto-All n (suc n) (omega arith))

-- Whatever calls a new queue has served, its rows are numbered from 1 without gaps, in the order of
-- enqueueing, and no id is used twice.
pub after_calls-ids :
    {C : Type 0} (cs : List (QueueCall C))
    → IsNumbered (after_calls empty_queue cs) × Distinct (ids (after_calls empty_queue cs))
unfolding empty_queue ids_upto
after_calls-ids cs =
    let v =
      after_calls-IsNumbered empty_queue cs
        (record { handed_out = 0; next = refl; numbered = refl }) in
    (v, rw v.numbered (ids_upto-Distinct v.handed_out))

-- The status of the first row with an id.
pub status_of : {C : Type 0} → Str → List (Row C) → Option RowStatus
status_of id [] = none
status_of id (row ∷ rows) = if str_eq row.id id then some row.status else status_of id rows

module _ {C : Type 0} (f : Row C → Row C) (s : RowStatus)
    (keeps_id : (row : Row C) → (f row).id ≡ row.id)
    (sets_status : (row : Row C) → (f row).status ≡ s) where
  pub status_of-update_row :
      (i j : Str) (rows : List (Row C))
      → status_of j (update_row i f rows) ≡ (
          if str_eq i j
          then elim (status_of j rows) [ none ↦ none | some _ ↦ some s ]
          else status_of j rows)
  unfolding status_of update_row
  status_of-update_row i j [] = ground arith
  status_of-update_row i j (row ∷ rows) = ground (
    arith,
    keeps_id row,
    sets_status row,
    str_eq→eq row.id i,
    str_eq→eq row.id j,
    str_eq→eq i j,
    str_eq_refl j,
    status_of-update_row i j rows,
  )
