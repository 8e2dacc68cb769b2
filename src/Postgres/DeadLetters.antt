-- ===== src/Postgres/DeadLetters.antt =====
-- packages/postgres/src/outbox/pg-dlq-service.ts. Each operation is one transaction, whose
-- statements are taken together.
pub mod Requeue
pub mod Requeued
use eventfabric.Base.{
  ℕ, suc, ltb, leb, ◌==◌, Str, codes, Bool, true, false, not, ◌&&◌, ◌≡◌, refl, Option, none, some,
  or_else, List, [], ◌∷◌, ◌++◌, map, str_eq, keep, count, take, drop, sort_by, order_by,
  if◌then◌else◌, arith, Bool-cases, inl, inr,
}
use eventfabric.Core.Projections.Outbox.{OutboxEntry, has_topic}

-- A row of `outbox_dead_letters`.
pub record DlqRow : Type 0 where
  pub id : ℕ
  pub tenant_id : Str
  pub outbox_id : ℕ
  pub global_position : ℕ
  pub topic : Option Str
  pub attempts : ℕ
  pub last_error : Option Str
  pub dead_lettered_at : ℕ

pub record DlqItem : Type 0 where
  pub id : ℕ
  pub outbox_id : ℕ
  pub global_position : ℕ
  pub topic : Option Str
  pub attempts : ℕ
  pub last_error : Option Str
  pub dead_lettered_at : ℕ

-- The two tables, with the sequence of the first.
pub record DlqTables : Type 0 where
  pub outbox : List OutboxEntry
  pub next_outbox_id : ℕ
  pub dead_letters : List DlqRow

abbrev pub item_of : DlqRow → DlqItem
item_of r = record {
  id = r.id;
  outbox_id = r.outbox_id;
  global_position = r.global_position;
  topic = r.topic;
  attempts = r.attempts;
  last_error = r.last_error;
  dead_lettered_at = r.dead_lettered_at;
}

abbrev pub is_listed : Str → Option Str → DlqRow → Bool
is_listed tenant_id topic r = str_eq r.tenant_id tenant_id && has_topic topic r.topic

abbrev pub is_later : DlqRow → DlqRow → Bool
is_later r q = leb q.dead_lettered_at r.dead_lettered_at

-- The items of a page, the latest first, and the number of all.
unfoldable pub list : Str → Option Str → Option ℕ → Option ℕ → DlqTables → List DlqItem × ℕ
list tenant_id topic limit offset t = (
  map item_of (
      take (or_else limit 100) (
        drop (or_else offset 0)
          (order_by is_later (keep (is_listed tenant_id topic) t.dead_letters)))),
  count (is_listed tenant_id topic) t.dead_letters,
)

abbrev pub is_item : Str → ℕ → DlqRow → Bool
is_item tenant_id dlq_id r = str_eq r.tenant_id tenant_id && (r.id == dlq_id)

-- The first row that a SELECT gives.
unfoldable pub first_row : (DlqRow → Bool) → List DlqRow → Option DlqRow
first_row test [] = none
first_row test (r ∷ rs) = if test r then some r else first_row test rs

unfoldable pub get : Str → ℕ → DlqTables → Option DlqItem
unfolding first_row
get tenant_id dlq_id t = elim (first_row (is_item tenant_id dlq_id) t.dead_letters) [
  | none ↦ none
  | some r ↦ some (item_of r)
]

abbrev pub has_position : ℕ → OutboxEntry → Bool
has_position p e = e.global_position == p

abbrev pub new_entry : Str → ℕ → Option Str → ℕ → OutboxEntry
new_entry tenant_id global_position topic id = record {
  id = id;
  tenant_id = tenant_id;
  global_position = global_position;
  topic = topic;
  attempts = 0;
  locked_by = none;
  last_error = none;
}

-- `INSERT ... ON CONFLICT (global_position) DO NOTHING`
unfoldable pub insert_entry : Str → DlqRow → List OutboxEntry → ℕ → List OutboxEntry
insert_entry tenant_id r outbox id =
    if ltb 0 (count (has_position r.global_position) outbox)
    then outbox
    else outbox ++ new_entry tenant_id r.global_position r.topic id ∷ []

-- Whether a row was found, and the tables behind it. A conflict draws a number from the sequence
-- too.
unfoldable pub requeue : Str → ℕ → DlqTables → Bool × DlqTables
unfolding first_row insert_entry
requeue tenant_id dlq_id t = elim (first_row (is_item tenant_id dlq_id) t.dead_letters) [
  | none ↦ (false, t)
  | some r ↦ (
    true,
    record {
      outbox = insert_entry tenant_id r t.outbox t.next_outbox_id;
      next_outbox_id = suc t.next_outbox_id;
      dead_letters = keep (λ q. not (is_item tenant_id dlq_id q)) t.dead_letters;
    },
  )
]

abbrev pub is_at : Str → ℕ → DlqRow → Bool
is_at tenant_id p r = str_eq r.tenant_id tenant_id && (r.global_position == p)

unfoldable pub requeue_by_global_position : Str → ℕ → DlqTables → Bool × DlqTables
unfolding first_row requeue
requeue_by_global_position tenant_id p t = elim (first_row (is_at tenant_id p) t.dead_letters) [
  | none ↦ (false, t)
  | some r ↦ requeue tenant_id r.id t
]

unfoldable pub requeue_each : Str → List DlqRow → ℕ → DlqTables → ℕ × DlqTables
requeue_each tenant_id [] requeued t = (requeued, t)
requeue_each tenant_id (r ∷ rs) requeued t =
    let s = requeue tenant_id r.id t in
    requeue_each tenant_id rs (if s.0 then suc requeued else requeued) s.1

abbrev pub is_between : Str → ℕ → ℕ → DlqRow → Bool
is_between tenant_id from to r =
    str_eq r.tenant_id tenant_id && (leb from r.global_position && leb r.global_position to)

unfoldable pub requeue_range : Str → ℕ → ℕ → DlqTables → ℕ × DlqTables
unfolding requeue_each
requeue_range tenant_id from to t =
    requeue_each tenant_id
      (sort_by (λ r. r.global_position) (keep (is_between tenant_id from to) t.dead_letters)) 0 t

abbrev pub is_before : Option ℕ → ℕ → Bool
is_before none at = true
is_before (some older_than) at = ltb at older_than

-- No topic and the topic null are alike: neither restricts the rows.
abbrev pub is_purged : Str → Option Str → Option ℕ → DlqRow → Bool
is_purged tenant_id topic older_than r =
    str_eq r.tenant_id tenant_id
    && (has_topic topic r.topic && is_before older_than r.dead_lettered_at)

unfoldable pub purge : Str → Option Str → Option ℕ → DlqTables → ℕ × DlqTables
purge tenant_id topic older_than t = (
  count (is_purged tenant_id topic older_than) t.dead_letters,
  record t {
    dead_letters = keep (λ r. not (is_purged tenant_id topic older_than r)) t.dead_letters;
  },
)
