-- ===== src/Core/Projections/Outbox.antt =====
-- packages/postgres/src/outbox/pg-outbox-store.ts: the outbox table in the order of its ids, and
-- the table of dead letters. A dead-lettered row is deleted in the statement after it is marked, so
-- that no row keeps the mark; times are left out.
use eventfabric.Base.{
  ℕ, zero, suc, ◌≢◌, Str, Bool, true, false, not, ◌&&◌, Option, none, some, List, [], ◌∷◌, ◌++◌,
  map, arith, ◌==◌, str_eq, keep, All, if◌then◌else◌,
}

pub record OutboxEntry : Type 0 where
  pub id : ℕ
  pub tenant_id : Str
  pub global_position : ℕ
  pub topic : Option Str
  pub attempts : ℕ
  pub locked_by : Option Str
  pub last_error : Option Str

-- `OutboxRow`: what a claim gives back.
pub record OutboxRow : Type 0 where
  pub id : ℕ
  pub global_position : ℕ
  pub topic : Option Str
  pub attempts : ℕ

pub record Outbox : Type 0 where
  pub rows : List OutboxEntry
  pub dead_letters : List OutboxEntry

-- `$3::text IS NULL OR topic = $3`
abbrev pub has_topic : Option Str → Option Str → Bool
has_topic none topic = true
has_topic (some t) none = false
has_topic (some t) (some u) = str_eq u t

abbrev pub is_free : Option Str → Bool
is_free none = true
is_free (some _) = false

abbrev pub lock : Str → OutboxEntry → OutboxEntry
lock worker_id e = record e { locked_by = some worker_id; attempts = suc e.attempts }

abbrev pub row_of : OutboxEntry → OutboxRow
row_of e = record {
  id = e.id;
  global_position = e.global_position;
  topic = e.topic;
  attempts = e.attempts;
}

-- The free rows of a topic, by id, up to the limit.
unfoldable pub claim_entries :
    ℕ → Str → Option Str → List OutboxEntry → List OutboxEntry × List OutboxRow
claim_entries zero worker_id topic es = (es, [])
claim_entries (suc n) worker_id topic [] = ([], [])
claim_entries (suc n) worker_id topic (e ∷ es) =
    let (taken, rows) = claim_entries n worker_id topic es in
    let (passed, others) = claim_entries (suc n) worker_id topic es in
    if is_free e.locked_by && has_topic topic e.topic
    then (lock worker_id e ∷ taken, row_of (lock worker_id e) ∷ rows)
    else (e ∷ passed, others)

unfoldable pub claim_batch : ℕ → Str → Option Str → Outbox → Outbox × List OutboxRow
unfolding claim_entries
claim_batch batch_size worker_id topic o =
    let (rows, claimed) = claim_entries batch_size worker_id topic o.rows in
    (record o { rows = rows }, claimed)

unfoldable pub ack : ℕ → Outbox → Outbox
ack id o = record o { rows = keep (λ e. not (e.id == id)) o.rows }

abbrev pub unlock : ℕ → Str → OutboxEntry → OutboxEntry
unlock id error e = if e.id == id then record e { locked_by = none; last_error = some error } else e

unfoldable pub release_with_error : ℕ → Str → Outbox → Outbox
release_with_error id error o = record o { rows = map (unlock id error) o.rows }

unfoldable pub dead_letter : ℕ → Outbox → Outbox
dead_letter id o = record o {
  rows = keep (λ e. not (e.id == id)) o.rows;
  dead_letters = o.dead_letters ++ keep (λ e. e.id == id) o.rows;
}

-- No row with an id is left.
abbrev pub IsSettled : ℕ → Outbox → Type 0
IsSettled id o = All (λ e. e.id ≢ id) o.rows

kept-All : (id : ℕ) (es : List OutboxEntry) → All (λ e. e.id ≢ id) (keep (λ e. not (e.id == id)) es)
kept-All id [] = tt
kept-All id (e ∷ es) = ground (arith, kept-All id es)

pub ack-IsSettled : (id : ℕ) (o : Outbox) → IsSettled id (ack id o)
unfolding ack
ack-IsSettled id o = kept-All id o.rows

pub dead_letter-IsSettled : (id : ℕ) (o : Outbox) → IsSettled id (dead_letter id o)
unfolding dead_letter
dead_letter-IsSettled id o = kept-All id o.rows
