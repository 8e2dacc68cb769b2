-- ===== src/Mediator/Idempotency.antt =====
-- packages/mediator/src/in-memory-idempotency-store.ts. A handler's result is the type parameter
-- `R`.
use eventfabric.Base.{
  ◌≡◌, Str, Option, none, some, ◌∷◌, ◌++◌, codes, Dict, lookup, insert, erase, or_else, IsColonFree,
  split_first_colon,
}

pub data Slot (R : Type 0) : Type 0 where
  in_flight : Str → Slot R
  completed : R → Slot R

pub data ClaimResult (R : Type 0) : Type 0 where
  claimed : ClaimResult R
  done : R → ClaimResult R
  busy : ClaimResult R

abbrev pub IdempotencyStore : Type 0 → Type 0
IdempotencyStore R = Dict (Slot R)

-- `${tenantId ?? "default"}::${key}`
unfoldable pub slot_key : Option Str → Str → Str
slot_key tenant_id key = or_else tenant_id (codes "default") ++ (codes "::" ++ key)

module _ {R : Type 0} where
  unfoldable pub claim :
      Str → Str → Option Str → IdempotencyStore R → ClaimResult R × IdempotencyStore R
  claim key command_id tenant_id slots = elim (lookup (slot_key tenant_id key) slots) [
    | none ↦ (claimed, insert (slot_key tenant_id key) (in_flight command_id) slots)
    | some slot ↦ elim slot [
      | completed result ↦ (done result, slots)
      | in_flight _ ↦ (busy, slots)
    ]
  ]

  unfoldable pub complete : Str → Option Str → R → IdempotencyStore R → IdempotencyStore R
  complete key tenant_id result slots = insert (slot_key tenant_id key) (completed result) slots

  unfoldable pub release : Str → Option Str → IdempotencyStore R → IdempotencyStore R
  release key tenant_id slots = erase (slot_key tenant_id key) slots

-- Two tenants without colons in their ids never share a slot; a command without a tenant shares the
-- slots of the tenant `default`.
pub slot_key-injective :
    (t t' : Option Str) (k k' : Str)
    → IsColonFree (or_else t (codes "default"))
    → IsColonFree (or_else t' (codes "default"))
    → slot_key t k ≡ slot_key t' k'
    → (or_else t (codes "default") ≡ or_else t' (codes "default")) × (k ≡ k')
unfolding slot_key
slot_key-injective t t' k k' h h' e =
    let p =
      split_first_colon (or_else t (codes "default")) (or_else t' (codes "default")) (58 ∷ k)
        (58 ∷ k') h h' e in
    (p.0, cons_tail p.1)
  where
    cons_tail : {x y : Str} → 58 ∷ x ≡ 58 ∷ y → x ≡ y
    cons_tail e = cc
