-- ===== src/Postgres/EventStore/Verify/Evident.antt =====
-- What `verifyStream` of packages/postgres/src/pg-event-store.ts rules out.
use eventfabric.Base.{
  ℕ, suc, ◌+◌, ◌≡◌, ◌≢◌, ◌⊎◌, refl, sym, ap, ◌∙◌, Str, codes, Bool-cases, true, Option, some, List,
  [], ◌∷◌, ◌++◌, arith, length, inl, inr, Result, ok, and_then-ok, str_eq, str_eq→eq, str_eq_refl,
}
use eventfabric.Core.Integrity.HashChain.{Host, preimage, compute_event_hash, stream_genesis}
use eventfabric.Core.Integrity.Json.{serialize, obj, field, no_fields, str}
use eventfabric.Postgres.EventStore.Tables.{
  StreamId, EventRow, Db, PgEventStore, Backend, find_stream,
}
use eventfabric.Postgres.EventStore.Rows.{chainable}
use eventfabric.Postgres.EventStore.Reads.{stream_rows}
use eventfabric.Postgres.EventStore.Verify.{
  walk, walked, recompute, protected_rows, verify_stream, verify_rows, head_of,
  ChainVerificationResult,
}
use eventfabric.Postgres.EventStore.Verify.Loop.{walk_row}
use eventfabric.Postgres.EventStore.Verify.Intact.{Verified, verify_rows-Verified}

-- What is asked of the MAC under a key and of UTF-8: no digest is a part of another (they have one
-- length), and no two texts have the same bytes.
pub record IsSound (host : Host) (secret : Str) : Type 0 where
  pub one_length :
      (m n x y : Str)
      → host.hmac secret m ++ x ≡ host.hmac secret n ++ y
      → (host.hmac secret m ≡ host.hmac secret n) × (x ≡ y)
  pub same_text : (s t : Str) → host.utf8 s ≡ host.utf8 t → s ≡ t

same_or_not : (a b : Str) → (a ≡ b) ⊎ (a ≢ b)
same_or_not a b = elim (Bool-cases (str_eq a b)) [
  | inl t ↦ inl (str_eq→eq a b t)
  | inr f ↦ inr (λ q. absurd (ground (arith, f, q, str_eq_refl a)))
]

module _ {P : Type 0} (backend : Backend P) (secret : Str) (sound : IsSound backend.host secret)
    (s : StreamId) where
  -- The text of a row that is hashed: its identity, version, type, payload and metadata.
  abbrev pub content : EventRow P → Result Str
  content r = serialize backend.host.quote (
      preimage (
        chainable backend s
          (record { correlation_id = r.correlation_id; causation_id = r.causation_id }) r.event_id
          r.aggregate_version r.type r.version r.payload))

  -- Rows with the same texts, one by one.
  abbrev pub Agree : List (EventRow P) → List (EventRow P) → Type 0
  Agree [] [] = Unit
  Agree (r ∷ rs) (q ∷ qs) = (content r ≡ content q) × Agree rs qs
  Agree [] (q ∷ qs) = ⊥
  Agree (r ∷ rs) [] = ⊥

  -- The message is one that is hashed for a row of the list: a hash before it and its text.
  abbrev pub IsHashed : Str → List (EventRow P) → Type 0
  IsHashed m [] = ⊥
  IsHashed m (r ∷ rs) =
      ((p : Str) × (t : Str) × (content r ≡ ok t) × (m ≡ p ++ backend.host.utf8 t)) ⊎ IsHashed m rs

  -- Two messages with one MAC, each hashed for a row of its list.
  abbrev pub Collide : List (EventRow P) → List (EventRow P) → Type 0
  Collide rs qs =
      (m : Str) × (n : Str) × (m ≢ n)
      × (backend.host.hmac secret m ≡ backend.host.hmac secret n)
      × IsHashed m rs
      × IsHashed n qs

  abbrev IsDigest : Str → Type 0
  IsDigest h = (m : Str) × (h ≡ backend.host.hmac secret m)

  hashed :
      (p : Str) (r : EventRow P) {h : Str}
      → recompute backend secret s p r ≡ ok h
      → (t : Str) × (content r ≡ ok t) × (h ≡ backend.host.hmac secret (p ++ backend.host.utf8 t))
  unfolding compute_event_hash
  hashed p r e = let (t, text, k) = and_then-ok (content r) _ e in (t, text, ground arith)

  walk-length :
      (p : Str) (checked expected : ℕ) (rs : List (EventRow P)) {q : Str} {n next : ℕ}
      → walk backend secret s p checked expected rs ≡ ok (walked q n next)
      → n ≡ checked + length rs
  unfolding walk
  walk-length p checked expected [] e = ground arith
  walk-length p checked expected (r ∷ rs) {q} {n} {next} e =
      let (h, _, _, _, rest) = walk_row backend secret s p checked expected r rs e in
      omega (arith, walk-length h (suc checked) (suc r.aggregate_version) rs rest)

  -- One message, so one hash before it and one text.
  one_message :
      (m m' : Str) (r q : EventRow P) {p p' t t' : Str}
      → p ≡ backend.host.hmac secret m
      → p' ≡ backend.host.hmac secret m'
      → content r ≡ ok t
      → content q ≡ ok t'
      → p ++ backend.host.utf8 t ≡ p' ++ backend.host.utf8 t'
      → (p ≡ p') × (content r ≡ content q)
  one_message m m' r q {p} {p'} {t} {t'} d d' text text' messages =
      let parts = sound.one_length m m' (backend.host.utf8 t) (backend.host.utf8 t') (
        ap (λ x. x ++ backend.host.utf8 t) (sym d)
        ∙ (messages ∙ ap (λ x. x ++ backend.host.utf8 t') d')) in
      (d ∙ (parts.0 ∙ sym d'), text ∙ (ap ok (sound.same_text t t' parts.1) ∙ sym text'))

  -- Two walks to one hash over as many rows started at one hash, over rows that agree.
  walk-Agree :
      (p p' : Str) (c c' e e' : ℕ) (rs qs : List (EventRow P)) {h : Str} {n n' next next' : ℕ}
      → IsDigest p
      → IsDigest p'
      → walk backend secret s p c e rs ≡ ok (walked h n next)
      → walk backend secret s p' c' e' qs ≡ ok (walked h n' next')
      → length rs ≡ length qs
      → Collide rs qs ⊎ ((p ≡ p') × Agree rs qs)
  unfolding walk
  walk-Agree p p' c c' e e' [] [] d d' w w' l = inr (ground arith, tt)
  walk-Agree p p' c c' e e' [] (q ∷ qs) d d' w w' l = absurd (omega (arith, l))
  walk-Agree p p' c c' e e' (r ∷ rs) [] d d' w w' l = absurd (omega (arith, l))
  walk-Agree p p' c c' e e' (r ∷ rs) (q ∷ qs) (m, d) (m', d') w w' l =
      let (k, _, _, computed, rest) = walk_row backend secret s p c e r rs w in
      let (k', _, _, computed', rest') = walk_row backend secret s p' c' e' q qs w' in
      let (t, text, hash) = hashed p r computed in
      let (t', text', hash') = hashed p' q computed' in
      let later =
        walk-Agree k k' (suc c) (suc c') (suc r.aggregate_version) (suc q.aggregate_version) rs qs
          (p ++ backend.host.utf8 t, hash) (p' ++ backend.host.utf8 t', hash') rest rest'
          (omega (arith, l)) in
      elim later [
        | inl (x, y, differ, one, hx, hy) ↦ inl (x, y, differ, one, inr hx, inr hy)
        | inr (same, agree) ↦
            let one = sym hash ∙ (same ∙ hash') in
            elim (same_or_not (p ++ backend.host.utf8 t) (p' ++ backend.host.utf8 t')) [
              | inl messages ↦
                  let (before, row) = one_message m m' r q d d' text text' messages in
                  inr (before, (row, agree))
              | inr differ ↦
                  inl (_, _, differ, one, inl (p, t, text, refl), inl (p', t', text', refl))
            ]
      ]

  genesis-IsDigest :
      {g : Str}
      → stream_genesis backend.host secret s.tenant_id s.aggregate_name s.aggregate_id ≡ ok g
      → IsDigest g
  unfolding stream_genesis
  genesis-IsDigest e =
      let (text, _, k) =
        and_then-ok
          (serialize backend.host.quote (
            obj (
              field (codes "tenantId") (str s.tenant_id) (
                field (codes "aggregateName") (str s.aggregate_name)
                  (field (codes "aggregateId") (str s.aggregate_id) no_fields)))))
          (λ x. ok (
            backend.host.hmac secret
              (backend.host.utf8 (codes "eventfabric:stream-genesis:v1") ++ backend.host.utf8 x)))
          e in
      (
        backend.host.utf8 (codes "eventfabric:stream-genesis:v1") ++ backend.host.utf8 text,
        ground arith,
      )

  Verified-Agree :
      (rows rows' : List (EventRow P)) (stored : Option Str) (n : ℕ)
      → Verified backend secret s rows stored n
      → Verified backend secret s rows' stored n
      → Collide (protected_rows rows) (protected_rows rows')
        ⊎ Agree (protected_rows rows) (protected_rows rows')
  Verified-Agree rows rows' stored n (inl (e, _, _)) (inl (e', _, _)) = inr (rw (e, e') tt)
  Verified-Agree rows rows' stored n (inl (_, none_stored, _))
        (inr (_, _, _, _, _, _, _, _, head)) =
      absurd (ground (arith, none_stored, head))
  Verified-Agree rows rows' stored n (inr (_, _, _, _, _, _, _, _, head))
        (inl (_, none_stored, _)) =
      absurd (ground (arith, none_stored, head))
  Verified-Agree rows rows' stored n (inr (r, rs, g, p, x, e, gen, w, head))
        (inr (q, qs, g', p', x', e', gen', w', head')) =
      let same : p' ≡ p = ground (arith, head, head') in
      let counted = walk-length g 0 r.aggregate_version (r ∷ rs) w in
      let counted' = walk-length g' 0 q.aggregate_version (q ∷ qs) w' in
      let agree =
        walk-Agree g g' 0 0 r.aggregate_version q.aggregate_version (r ∷ rs) (q ∷ qs)
          (genesis-IsDigest gen) (genesis-IsDigest gen') w (rw same at w')
          (omega (arith, counted, counted')) in
      rw (e, e') (elim agree [ inl found ↦ inl found | inr (_, rows_agree) ↦ inr rows_agree ])

  -- If `verify_stream` finds a stream intact in two databases, with one stored head and as many
  -- events checked, then the protected rows of the two agree, one by one, in the text of identity,
  -- version, type, payload and metadata that is hashed, or two different messages hashed for those
  -- rows have one MAC. Digests have one length and UTF-8 loses nothing.
  pub verify_stream-Agree :
      (store : PgEventStore P) (db db' : Db P) {v v' : ChainVerificationResult}
      → store.hash_secret ≡ some secret
      → verify_stream backend store s db ≡ ok v
      → verify_stream backend store s db' ≡ ok v'
      → v.intact ≡ true
      → v'.intact ≡ true
      → head_of (find_stream s db.stream_versions) ≡ head_of (find_stream s db'.stream_versions)
      → v.events_checked ≡ v'.events_checked
      → Collide
          (protected_rows (stream_rows s db.events))
          (protected_rows (stream_rows s db'.events))
        ⊎ Agree
            (protected_rows (stream_rows s db.events))
            (protected_rows (stream_rows s db'.events))
  unfolding verify_stream
  verify_stream-Agree store db db' {v} {v'} on e e' intact intact' heads counts =
      let rows = stream_rows s db.events in
      let rows' = stream_rows s db'.events in
      let stored = head_of (find_stream s db.stream_versions) in
      let first : verify_rows backend secret s rows stored ≡ ok v = ground (arith, on, e) in
      let second : verify_rows backend secret s rows' (head_of (find_stream s db'.stream_versions))
          ≡ ok v' =
        ground (arith, on, e') in
      Verified-Agree rows rows' stored v.events_checked
        (verify_rows-Verified backend secret s rows stored first intact)
        (rw (← heads, ← counts) at (verify_rows-Verified backend secret s rows' _ second intact'))
