-- ===== src/Postgres/DeadLetters/Requeue.antt =====
-- What requeueInternal of packages/postgres/src/outbox/pg-dlq-service.ts leaves in the two tables.
use eventfabric.Base.{
  ℕ, ◌≤◌, ◌<◌, Str, Bool, true, not, ◌≡◌, refl, sym, ap, ◌∙◌, none, some, List, [], ◌∷◌, ◌⊎◌, keep,
  count, count-append, Memᴰ, Memᴰ-keep, kept_passing, arith, Bool-cases, Option-cases, inl, inr,
}
use eventfabric.Core.Projections.Outbox.{OutboxEntry}
use eventfabric.Postgres.DeadLetters.{
  DlqRow, DlqTables, is_item, first_row, has_position, insert_entry, new_entry, requeue,
}

-- The ids are a primary key.
abbrev pub HasDlqIds : List DlqRow → Type 0
HasDlqIds rows = (r q : DlqRow) → Memᴰ r rows → Memᴰ q rows → r.id ≡ q.id → r ≡ q

-- The outbox has an entry at a position.
abbrev pub IsQueued : ℕ → DlqTables → Type 0
IsQueued p t = 0 < count (has_position p) t.outbox

first_row-some :
    (test : DlqRow → Bool) (rs : List DlqRow) (r : DlqRow)
    → Memᴰ r rs
    → test r ≡ true
    → (q : DlqRow) × (first_row test rs ≡ some q) × Memᴰ q rs × (test q ≡ true)
unfolding first_row
first_row-some test [] r i h = elim i [ ]
first_row-some test (x ∷ rs) r (Memᴰ.head d) h =
    (x, ground (arith, ap test d), Memᴰ.head refl, sym (ap test d) ∙ h)
first_row-some test (x ∷ rs) r (Memᴰ.tail j) h = elim (Bool-cases (test x)) [
  | inl e ↦ (x, rw e refl, Memᴰ.head refl, e)
  | inr e ↦
      let (q, found, there, passed) = first_row-some test rs r j h in
      (q, rw e found, Memᴰ.tail there, passed)
]

insert_entry-le :
    (tenant : Str) (r : DlqRow) (p id : ℕ) (outbox : List OutboxEntry)
    → count (has_position p) outbox ≤ count (has_position p) (insert_entry tenant r outbox id)
unfolding insert_entry
insert_entry-le tenant r p id outbox = ground (
  arith,
  count-append (has_position p) outbox (new_entry tenant r.global_position r.topic id ∷ []),
)

insert_entry-position :
    (tenant : Str) (r : DlqRow) (id : ℕ) (outbox : List OutboxEntry)
    → 0 < count (has_position r.global_position) (insert_entry tenant r outbox id)
unfolding insert_entry
insert_entry-position tenant r id outbox = ground (
  arith,
  count-append (has_position r.global_position) outbox
      (new_entry tenant r.global_position r.topic id ∷ []),
)

pub requeue-le :
    (tenant : Str) (id p : ℕ) (t : DlqTables)
    → count (has_position p) t.outbox ≤ count (has_position p) (requeue tenant id t).1.outbox
unfolding requeue
requeue-le tenant id p t = elim (Option-cases (first_row (is_item tenant id) t.dead_letters)) [
  | inl e ↦ ground arith
  | inr (r, e) ↦ ground (arith, insert_entry-le tenant r p t.next_outbox_id t.outbox)
]

first_row-none :
    (test : DlqRow → Bool) (rs : List DlqRow)
    → first_row test rs ≡ none
    → keep (λ q. not (test q)) rs ≡ rs
unfolding first_row
first_row-none test [] h = refl
first_row-none test (x ∷ rs) h = ground (arith, first_row-none test rs)

pub requeue-dead_letters :
    (tenant : Str) (id : ℕ) (t : DlqTables)
    → (requeue tenant id t).1.dead_letters ≡ keep (λ q. not (is_item tenant id q)) t.dead_letters
unfolding requeue
requeue-dead_letters tenant id t =
    elim (Option-cases (first_row (is_item tenant id) t.dead_letters)) [
      | inl e ↦ ground (arith, first_row-none (is_item tenant id) t.dead_letters e)
      | inr (r, e) ↦ ground arith
    ]

pub is_item-id : (tenant : Str) (id : ℕ) (r : DlqRow) → is_item tenant id r ≡ true → r.id ≡ id
is_item-id tenant id r h = ground arith

pub requeue-IsQueued :
    (tenant : Str) (id : ℕ) (r : DlqRow) (t : DlqTables)
    → HasDlqIds t.dead_letters
    → Memᴰ r t.dead_letters
    → is_item tenant id r ≡ true
    → IsQueued r.global_position (requeue tenant id t).1
unfolding requeue
requeue-IsQueued tenant id r t ids i h =
    let (q, found, there, passed) = first_row-some (is_item tenant id) t.dead_letters r i h in
    let same = ids q r there i (is_item-id tenant id q passed ∙ sym (is_item-id tenant id r h)) in
    ground (
      arith,
      ap (λ x. x.global_position) same,
      insert_entry-position tenant q t.next_outbox_id t.outbox,
    )

-- A dead letter is still there or its position is in the outbox.
abbrev pub IsSafe : DlqRow → DlqTables → Type 0
IsSafe r t = Memᴰ r t.dead_letters ⊎ IsQueued r.global_position t

pub requeue-HasDlqIds :
    (tenant : Str) (id : ℕ) (t : DlqTables)
    → HasDlqIds t.dead_letters
    → HasDlqIds (requeue tenant id t).1.dead_letters
requeue-HasDlqIds tenant id t ids =
    rw (requeue-dead_letters tenant id t)
      (λ r q i j. ids r q (kept_passing _ t.dead_letters i).0 (kept_passing _ t.dead_letters j).0)

pub requeue-IsSafe :
    (tenant : Str) (id : ℕ) (r : DlqRow) (t : DlqTables)
    → HasDlqIds t.dead_letters
    → IsSafe r t
    → IsSafe r (requeue tenant id t).1
requeue-IsSafe tenant id r t ids (inr q) =
    inr (omega (arith, requeue-le tenant id r.global_position t, q))
requeue-IsSafe tenant id r t ids (inl i) = elim (Bool-cases (is_item tenant id r)) [
  | inl e ↦ inr (requeue-IsQueued tenant id r t ids i e)
  | inr e ↦ inl (
      rw (requeue-dead_letters tenant id t)
        (Memᴰ-keep (λ q. not (is_item tenant id q)) t.dead_letters i (rw e refl)))
]
