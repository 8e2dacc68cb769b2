-- ===== src/Sagas/Runner/Resolve.antt =====
-- `resolve`: the instance that a delivery addresses, on every path to the reducer.
use eventfabric.Base.{
  ℕ, ◌≡◌, refl, sym, ap, subst, inl, inr, Str, true, false, Bool, Option, none, some, [], arith,
  if◌then◌else◌, or_else, str_eq, str_eq→eq, lookup, insert, lookup-insert, lookup-insert_self,
  Result, ok, err, Option-cases, Bool-cases,
}
use eventfabric.Core.Types.{EventEnvelope}
use eventfabric.Sagas.Saga.{Saga, SagaInstance, TimerMessage}
use eventfabric.Sagas.StateStore.{StateStore, key, key_of, load, insert_instance}
use eventfabric.Sagas.StateStore.Laws.{IsKeyed, lookup-IsKeyed, insert-IsKeyed}
use eventfabric.Sagas.Runner.{
  SagaDelivery, event, timer, SagaStores, Target, stop, go_on, resolve, resolve_event,
  resolve_timer, check_event, fresh_instance, is_active, has_seen, no_correlation, no_instance,
  instance_terminal,
}

-- The version under a key; an instance that is not stored yet counts as version 0.
abbrev pub stored_version : {S : Type 0} → Str → StateStore S → ℕ
stored_version k store = elim (lookup k store) [ none ↦ 0 | some i ↦ i.state_version ]

-- The highest event position that was applied to the instance under a key.
abbrev pub stored_position : {S : Type 0} → Str → StateStore S → Option ℕ
stored_position k store = elim (lookup k store) [ none ↦ none | some i ↦ i.last_event_pos ]

module _ {S P C M : Type 0} (saga : Saga S P C M) (tenant_id : Str) (now : ℕ) where
  -- The instance id and the tenant that a delivery addresses.
  abbrev pub target_id : SagaDelivery P M → Str
  target_id (event envelope) = or_else (saga.correlate envelope) []
  target_id (timer instance_id _ _) = instance_id

  abbrev pub target_tenant : SagaDelivery P M → Str
  target_tenant (event _) = tenant_id
  target_tenant (timer _ tenant _) = tenant

  abbrev pub target_key : SagaDelivery P M → Str
  target_key d = key saga.name (target_id d) (target_tenant d)

  -- An event may start an instance, with the initial state; a timer never does.
  abbrev pub Starts : SagaDelivery P M → SagaInstance S → Bool → Type 0
  Starts (event envelope) i fresh =
      (i ≡ fresh_instance saga tenant_id now (target_id (event envelope)) envelope)
      × (fresh ≡ true)
      × (saga.starts_new_instance envelope ≡ true)
  Starts (timer _ _ _) i fresh = ⊥

  -- The instance that a delivery works on, and whether it is new: the stored one, or a started one.
  abbrev pub Seen : SagaDelivery P M → SagaStores S C M → SagaInstance S → Bool → Type 0
  Seen d w i fresh = elim (lookup (target_key d) w.instances) [
    | some stored ↦ (i ≡ stored) × (fresh ≡ false)
    | none ↦ Starts d i fresh
  ]

  seen_stored :
      (d : SagaDelivery P M) (w : SagaStores S C M) (i : SagaInstance S)
      → lookup (target_key d) w.instances ≡ some i
      → Seen d w i false
  seen_stored d w i e = rw (Seen, e) ((refl, refl))

  seen_new :
      (envelope : EventEnvelope P) (id : Str) (w : SagaStores S C M)
      → id ≡ target_id (event envelope)
      → lookup (target_key (event envelope)) w.instances ≡ none
      → saga.starts_new_instance envelope ≡ true
      → Seen (event envelope) w (fresh_instance saga tenant_id now id envelope) true
  seen_new envelope id w here e starts =
      rw (Seen, e) ((ap (λ x. fresh_instance saga tenant_id now x envelope) here, refl, starts))

  -- The instance that a delivery goes on with: it is stored, and no other one has changed.
  pub record Found (d : SagaDelivery P M) (w w' : SagaStores S C M) (i : SagaInstance S)
      : Type 0 where
    pub keyed : IsKeyed w'.instances
    pub own_key : key_of i ≡ target_key d
    pub stored : lookup (target_key d) w'.instances ≡ some i
    pub others :
        (k : Str)
        → lookup k w'.instances ≡ (if str_eq (target_key d) k then some i else lookup k w.instances)
    pub version : i.state_version ≡ stored_version (target_key d) w.instances
    pub position : i.last_event_pos ≡ stored_position (target_key d) w.instances
    pub same_queue : w'.queue ≡ w.queue
    pub same_timers : w'.timers ≡ w.timers

  abbrev pub Resolves :
      SagaDelivery P M → SagaStores S C M → Result (Target S) × SagaStores S C M → Type 0
  Resolves d w (err e, w') = ⊥
  Resolves d w (ok (stop reason), w') = w' ≡ w
  Resolves d w (ok (go_on id i fresh), w') = (id ≡ target_id d) × Found d w w' i × Seen d w i fresh

  loaded-Found :
      (d : SagaDelivery P M) (w : SagaStores S C M) (i : SagaInstance S)
      → IsKeyed w.instances
      → lookup (target_key d) w.instances ≡ some i
      → Found d w w i
  loaded-Found d w i v e = record {
    keyed = v;
    own_key = lookup-IsKeyed (target_key d) i w.instances v e;
    stored = e;
    others = λ k. elim (Bool-cases (str_eq (target_key d) k)) [
      | inl same ↦ rw (same, ← str_eq→eq (target_key d) k same) e
      | inr other ↦ rw other
    ];
    version = rw (e, stored_version);
    position = rw (e, stored_position);
    same_queue = refl;
    same_timers = refl;
  }

  created-Found :
      (envelope : EventEnvelope P) (id : Str) (w : SagaStores S C M)
      → IsKeyed w.instances
      → saga.correlate envelope ≡ some id
      → lookup (key saga.name id tenant_id) w.instances ≡ none
      → let i = fresh_instance saga tenant_id now id envelope in
        Found (event envelope) w (record w { instances = insert (key_of i) i w.instances }) i
  created-Found envelope id w v c e =
      let i = fresh_instance saga tenant_id now id envelope in
      record {
        keyed = insert-IsKeyed i w.instances v;
        own_key = rw c;
        stored = rw c (lookup-insert_self (key_of i) i w.instances);
        others = λ k. rw c (lookup-insert (key_of i) k i w.instances);
        version = rw (c, e, stored_version);
        position = rw (c, e, stored_position);
        same_queue = refl;
        same_timers = refl;
      }

  check_event-Resolves :
      (envelope : EventEnvelope P) (id : Str) (i : SagaInstance S) (w : SagaStores S C M)
      → id ≡ target_id (event envelope)
      → Found (event envelope) w w i
      → Seen (event envelope) w i false
      → Resolves (event envelope) w (ok (check_event saga tenant_id now envelope id i false), w)
  unfolding check_event
  check_event-Resolves envelope id i w e f seen_by = elim (Bool-cases (is_active i.status)) [
    | inr ended ↦ rw ended refl
    | inl live ↦ elim (Bool-cases (has_seen i.last_event_pos envelope.global_position)) [
      | inl seen ↦ rw (live, seen) refl
      | inr new ↦ rw (live, new) ((e, f, seen_by))
    ]
  ]

  -- A new instance passes both checks.
  created_check :
      (envelope : EventEnvelope P) (id : Str) (w : SagaStores S C M)
      → id ≡ target_id (event envelope)
      → let i = fresh_instance saga tenant_id now id envelope in
        Found (event envelope) w (record w { instances = insert (key_of i) i w.instances }) i
        → Seen (event envelope) w i true
        → Resolves (event envelope) w (
          ok (check_event saga tenant_id now envelope id i true),
          record w { instances = insert (key_of i) i w.instances },
        )
  unfolding check_event
  created_check envelope id w e f seen_by = (e, f, seen_by)

  -- What a call gives is what an equation for it gives.
  by_value :
      (d : SagaDelivery P M) (w : SagaStores S C M) (r r' : Result (Target S) × SagaStores S C M)
      → r ≡ r'
      → Resolves d w r'
      → Resolves d w r
  by_value d w r r' e h = subst (Resolves d w) (sym e) h

  resolve_event-Resolves :
      (envelope : EventEnvelope P) (w : SagaStores S C M)
      → IsKeyed w.instances
      → Resolves (event envelope) w (resolve_event saga tenant_id now envelope w)
  unfolding resolve_event load insert_instance
  resolve_event-Resolves envelope w v = elim (Option-cases (saga.correlate envelope)) [
    | inl c ↦
        by_value (event envelope) w (resolve_event saga tenant_id now envelope w)
          (ok (stop no_correlation), w) (ground arith) refl
    | inr (id, c) ↦
        let here : id ≡ target_id (event envelope) = rw c refl in
        elim (Option-cases (lookup (key saga.name id tenant_id) w.instances)) [
          | inr (i, e) ↦
              by_value (event envelope) w (resolve_event saga tenant_id now envelope w)
                (ok (check_event saga tenant_id now envelope id i false), w) (ground arith)
                (check_event-Resolves envelope id i w here
                  (loaded-Found (event envelope) w i v (rw c e))
                  (seen_stored (event envelope) w i (rw c e)))
          | inl e ↦ elim (Bool-cases (saga.starts_new_instance envelope)) [
            | inr no_start ↦
                by_value (event envelope) w (resolve_event saga tenant_id now envelope w)
                  (ok (stop no_instance), w) (ground arith) refl
            | inl starts ↦
                let i = fresh_instance saga tenant_id now id envelope in
                by_value (event envelope) w (resolve_event saga tenant_id now envelope w)
                  (
                    ok (check_event saga tenant_id now envelope id i true),
                    record w { instances = insert (key_of i) i w.instances },
                  )
                  (ground arith)
                  (created_check envelope id w here (created-Found envelope id w v c e)
                    (seen_new envelope id w here (rw c e) starts))
          ]
        ]
  ]

  resolve_timer-Resolves :
      (id tenant : Str) (m : TimerMessage M) (w : SagaStores S C M)
      → IsKeyed w.instances
      → Resolves (timer id tenant m) w (resolve_timer saga tenant_id now id tenant w)
  unfolding resolve_timer load
  resolve_timer-Resolves id tenant m w v =
      elim (Option-cases (lookup (key saga.name id tenant) w.instances)) [
        | inl e ↦
            by_value (timer id tenant m) w (resolve_timer saga tenant_id now id tenant w)
              (ok (stop no_instance), w) (ground arith) refl
        | inr (i, e) ↦ elim (Bool-cases (is_active i.status)) [
          | inr ended ↦
              by_value (timer id tenant m) w (resolve_timer saga tenant_id now id tenant w)
                (ok (stop instance_terminal), w) (ground arith) refl
          | inl live ↦
              by_value (timer id tenant m) w (resolve_timer saga tenant_id now id tenant w)
                (ok (go_on id i false), w) (ground arith)
                ((
                  refl,
                  loaded-Found (timer id tenant m) w i v e,
                  seen_stored (timer id tenant m) w i e,
                ))
        ]
      ]

  pub resolve-Resolves :
      (d : SagaDelivery P M) (w : SagaStores S C M)
      → IsKeyed w.instances
      → Resolves d w (resolve saga tenant_id now d w)
  unfolding resolve
  resolve-Resolves (event envelope) w v = resolve_event-Resolves envelope w v
  resolve-Resolves (timer id tenant m) w v = resolve_timer-Resolves id tenant m w v
