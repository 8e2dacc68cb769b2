-- ===== src/Postgres/Tests/Tampering.antt =====
-- Two databases with one stream, at concrete tables.
use eventfabric.Base.{
  ℕ, suc, ◌≡◌, ◌⊎◌, refl, Str, codes, none, [], ◌∷◌, ◌++◌, map, arith, str_eq, includes, sort_by,
  ok, decimal,
}
use eventfabric.Core.Integrity.Json.{serialize}
use eventfabric.Core.Integrity.HashChain.{stream_genesis, compute_event_hash, hashes_equal}
use eventfabric.Postgres.EventStore.Tables.{Db, find_stream, same_stream}
use eventfabric.Postgres.EventStore.Rows.{chain_batch}
use eventfabric.Postgres.EventStore.Append.{append, stream_of}
use eventfabric.Postgres.EventStore.Reads.{dismiss, stream_rows}
use eventfabric.Postgres.EventStore.Verify.{verify_stream, protected_rows}
use eventfabric.Postgres.EventStore.Verify.Intact.{intact_result}
use eventfabric.Postgres.EventStore.Verify.Evident.{IsSound, Agree, Collide, verify_stream-Agree}
use eventfabric.Postgres.Tests.{host, backend, uuids, chained_store, two_deposits, empty_db}

ends_apart :
    (m n x y : Str)
    → (map suc m ++ 0 ∷ []) ++ x ≡ (map suc n ++ 0 ∷ []) ++ y
    → (map suc m ++ 0 ∷ [] ≡ map suc n ++ 0 ∷ []) × (x ≡ y)
ends_apart [] [] x y e = (refl, ground arith)
ends_apart [] (b ∷ n) x y e = absurd (ground arith)
ends_apart (a ∷ m) [] x y e = absurd (ground arith)
ends_apart (a ∷ m) (b ∷ n) x y e = ground (arith, ends_apart m n x y)

host-IsSound : IsSound host (codes "k")
host-IsSound = record { one_length = ends_apart; same_text = λ s t e. e }

abbrev chained_db : Db ℕ
unfolding append
chained_db = (append backend uuids 0 chained_store (codes "t") two_deposits empty_db).1

-- The same with the first event dismissed.
abbrev dismissed_db : Db ℕ
unfolding dismiss chained_db
dismissed_db =
    dismiss (codes "t") (codes "a") (record { at = codes "now"; reason = none; by = none })
      chained_db

chained_is_intact :
    verify_stream backend chained_store (stream_of (codes "t") two_deposits) chained_db
    ≡ ok (intact_result (stream_of (codes "t") two_deposits) 2)
unfolding verify_stream stream_rows sort_by append chained_db includes str_eq find_stream
    same_stream stream_genesis compute_event_hash serialize chain_batch hashes_equal decimal
chained_is_intact = refl

dismissed_is_intact :
    verify_stream backend chained_store (stream_of (codes "t") two_deposits) dismissed_db
    ≡ ok (intact_result (stream_of (codes "t") two_deposits) 2)
unfolding verify_stream stream_rows sort_by append chained_db dismissed_db dismiss includes str_eq
    find_stream same_stream stream_genesis compute_event_hash serialize chain_batch hashes_equal
    decimal
dismissed_is_intact = refl

verify_stream-Agree_example :
    Collide backend
      (codes "k")
      host-IsSound
      (stream_of (codes "t") two_deposits)
      (protected_rows (stream_rows (stream_of (codes "t") two_deposits) chained_db.events))
      (protected_rows (stream_rows (stream_of (codes "t") two_deposits) dismissed_db.events))
    ⊎ Agree backend
        (codes "k")
        host-IsSound
        (stream_of (codes "t") two_deposits)
        (protected_rows (stream_rows (stream_of (codes "t") two_deposits) chained_db.events))
        (protected_rows (stream_rows (stream_of (codes "t") two_deposits) dismissed_db.events))
unfolding chained_db dismissed_db
verify_stream-Agree_example =
    verify_stream-Agree backend (codes "k") host-IsSound (stream_of (codes "t") two_deposits)
      chained_store chained_db dismissed_db refl chained_is_intact dismissed_is_intact refl refl
      refl refl
