-- ===== src/Postgres/Tests/DeadLetters.antt =====
-- Dead letters of two tenants that are requeued.
use eventfabric.Base.{
  ℕ, ◌≡◌, refl, Str, codes, true, false, none, [], ◌∷◌, Memᴰ, str_eq, sort_by, arith, sym, ap, ◌∙◌,
}
use eventfabric.Postgres.DeadLetters.{
  DlqRow, DlqTables, requeue, requeue_each, requeue_range, is_between, first_row, insert_entry,
}
use eventfabric.Postgres.DeadLetters.Requeue.{HasDlqIds, IsQueued}
use eventfabric.Postgres.DeadLetters.Requeued.{requeue_range-IsQueued}

abbrev acme : Str
acme = codes "acme"

abbrev dead : ℕ → Str → ℕ → DlqRow
dead id tenant p = record {
  id = id;
  tenant_id = tenant;
  outbox_id = id;
  global_position = p;
  topic = none;
  attempts = 3;
  last_error = none;
  dead_lettered_at = 10;
}

abbrev tables : DlqTables
tables = record {
  outbox = [];
  next_outbox_id = 9;
  dead_letters = dead 1 acme 40 ∷ dead 2 acme 30 ∷ [];
}

tables-HasDlqIds : HasDlqIds tables.dead_letters
tables-HasDlqIds r q (Memᴰ.head e) (Memᴰ.head d) same = e ∙ sym d
tables-HasDlqIds r q (Memᴰ.head e) (Memᴰ.tail (Memᴰ.head d)) same =
    absurd (omega (arith, ap (λ x. x.id) e, ap (λ x. x.id) d, same))
tables-HasDlqIds r q (Memᴰ.tail (Memᴰ.head e)) (Memᴰ.head d) same =
    absurd (omega (arith, ap (λ x. x.id) e, ap (λ x. x.id) d, same))
tables-HasDlqIds r q (Memᴰ.tail (Memᴰ.head e)) (Memᴰ.tail (Memᴰ.head d)) same = e ∙ sym d
tables-HasDlqIds r q (Memᴰ.tail (Memᴰ.tail i)) j same = elim i [ ]
tables-HasDlqIds r q (Memᴰ.head e) (Memᴰ.tail (Memᴰ.tail j)) same = elim j [ ]
tables-HasDlqIds r q (Memᴰ.tail (Memᴰ.head e)) (Memᴰ.tail (Memᴰ.tail j)) same = elim j [ ]

abbrev behind : DlqTables
behind = (requeue_range acme 35 50 tables).1

requeue_range-IsQueued_example :
    ((r : DlqRow)
      → Memᴰ r tables.dead_letters
      → is_between acme 35 50 r ≡ true
      → IsQueued r.global_position behind)
    × ((r : DlqRow)
        → Memᴰ r behind.dead_letters
        → Memᴰ r tables.dead_letters × (is_between acme 35 50 r ≡ false))
    × ((r : DlqRow)
        → Memᴰ r tables.dead_letters
        → is_between acme 35 50 r ≡ false
        → Memᴰ r behind.dead_letters)
requeue_range-IsQueued_example = requeue_range-IsQueued acme 35 50 tables tables-HasDlqIds

one_requeued : (requeue_range acme 35 50 tables).0 ≡ 1
unfolding requeue_range requeue_each requeue first_row insert_entry sort_by str_eq
one_requeued = refl
