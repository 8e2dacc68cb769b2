-- ===== src/Sagas/StateStore/Laws.antt =====
-- Keys of saga instances, and the optimistic update.
use eventfabric.Base.{
  ℕ, ◌≡◌, refl, ◌≢◌, Str, true, false, some, [], ◌∷◌, ◌++◌, arith, codes, lookup, insert,
  lookup-insert_self, insert-All, str_eq→eq, All, ok, IsColonFree, split_first_colon,
}
use mathlib.Core.List.{append_assoc}
use eventfabric.Sagas.Saga.{SagaInstance}
use eventfabric.Sagas.StateStore.{key, StateStore, key_of, update}

strip : {x y : Str} → 58 ∷ x ≡ 58 ∷ y → x ≡ y
strip e = cc

-- Where neither tenant ids nor saga names contain a colon, a key tells them and the instance id.
pub key-injective :
    (s s' i i' t t' : Str)
    → IsColonFree s
    → IsColonFree s'
    → IsColonFree t
    → IsColonFree t'
    → key s i t ≡ key s' i' t'
    → (s ≡ s') × (i ≡ i') × (t ≡ t')
unfolding key
key-injective s s' i i' t t' hs hs' ht ht' e =
    let p = split_first_colon t t' _ _ ht ht' e in
    let q = split_first_colon s s' _ _ hs hs' (strip p.1) in (q.0, strip q.1, p.0)

-- With the separator inside a tenant id, two instances of different tenants have one key.
pub key-collision :
    (a b c i : Str) → key c i (a ++ (codes "::" ++ b)) ≡ key (b ++ (codes "::" ++ c)) i a
unfolding key
key-collision a b c i = simp append_assoc

module _ {S : Type 0} where
  -- Every instance stands under its own key.
  abbrev pub IsKeyed : StateStore S → Type 0
  IsKeyed = All (λ e. key_of e.1 ≡ e.0)

  pub lookup-IsKeyed :
      (k : Str) (i : SagaInstance S) (store : StateStore S)
      → IsKeyed store
      → lookup k store ≡ some i
      → key_of i ≡ k
  unfolding lookup
  lookup-IsKeyed k i [] h e = cc
  lookup-IsKeyed k i ((j, v) ∷ store) h e =
      ground (arith, h.0, str_eq→eq j k, lookup-IsKeyed k i store h.1)

  pub insert-IsKeyed :
      (i : SagaInstance S) (store : StateStore S)
      → IsKeyed store
      → IsKeyed (insert (key_of i) i store)
  insert-IsKeyed i store h = insert-All (λ e. key_of e.1 ≡ e.0) (key_of i) i store refl h

  -- Of two writers of one instance that expect the same version, the second is refused and changes
  -- nothing, if the first has succeeded with an instance of another version.
  pub update-update :
      (i j : SagaInstance S) (v : ℕ) (store : StateStore S)
      → key_of j ≡ key_of i
      → i.state_version ≢ v
      → (update i v store).0 ≡ ok true
      → update j v (update i v store).1 ≡ (ok false, (update i v store).1)
  unfolding update
  update-update i j v store k ne h = ground (arith, lookup-insert_self (key_of i) i store)
