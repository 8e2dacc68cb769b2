-- ===== src/Base/Effects.antt =====
-- Promises that may be rejected: a call takes the store, and gives back a value or an error with
-- the store as it was left. Transactions restore the store on an error.
use mathlib.Core.Path.{◌≡◌, refl}
use mathlib.Core.Logic.{◌⊎◌, inl, inr}
use mathlib.Core.List.{◌++◌}
use native.Mathlib.Omega.{arith}
use eventfabric.Base.Text.{Str, codes}

-- What the code throws: its own error classes, and any other `Error` by its message.
pub data Error : Type 0 where
  concurrency_error : Str → Error
  concurrent_saga_transition : Error
  command_in_flight : Str → Error
  no_handler_registered : Str → Error
  missing_tenant_id : Str → Error
  thrown : Str → Error

-- `error.message`
abbrev pub error_message : Error → Str
error_message (concurrency_error message) = message
error_message concurrent_saga_transition = codes "Concurrent saga transition while applying timer"
error_message (command_in_flight key) =
    codes "Command with idempotency key " ++ (key ++ codes " is already in flight")
error_message (no_handler_registered type) =
    codes "No handler registered for command type \"" ++ (type ++ codes "\"")
error_message (missing_tenant_id type) =
    codes "Command \""
    ++ (type
        ++ codes
            "\" arrived without metadata.tenantId; bus is configured with requireTenantId=true")
error_message (thrown message) = message

pub data Result {ℓ} (A : Type ℓ) : Type ℓ where
  ok : A → Result A
  err : Error → Result A

-- A step that may throw and changes no store, and what follows it.
abbrev pub and_then {ℓ κ} : {A : Type ℓ} {B : Type κ} → Result A → (A → Result B) → Result B
and_then (ok a) f = f a
and_then (err e) f = err e

pub and_then-ok {ℓ κ} :
    {A : Type ℓ} {B : Type κ} (r : Result A) (f : A → Result B) {b : B}
    → and_then r f ≡ ok b
    → (a : A) × (r ≡ ok a) × (f a ≡ ok b)
and_then-ok (ok a) f h = (a, refl, h)
and_then-ok (err e) f h = cc

abbrev pub Action : Type 0 → Type 0 → Type 0
Action W A = W → Result A × W

module _ {W A : Type 0} where
  abbrev pub pure : A → Action W A
  pure a w = (ok a, w)

  abbrev pub throw : Error → Action W A
  throw e w = (err e, w)

  abbrev pub gets : (W → A) → Action W A
  gets f w = (ok (f w), w)

  abbrev pub lift : Result A → Action W A
  lift r w = (r, w)

infixl 5 ◌>>=◌ ◌>>◌
abbrev pub ◌>>=◌ : {W A B : Type 0} → Action W A → (A → Action W B) → Action W B
◌>>=◌ m f w = let (r, w') = m w in elim r [ ok a ↦ f a w' | err e ↦ (err e, w') ]

abbrev pub ◌>>◌ : {W A B : Type 0} → Action W A → Action W B → Action W B
m >> k = m >>= λ _. k

abbrev pub modify : {W : Type 0} → (W → W) → Action W (Unit {0})
modify f w = (ok tt, f w)

-- `catch`: the handler runs on the store that the failed call left.
abbrev pub catch : {W A : Type 0} → Action W A → (Error → Action W A) → Action W A
catch m h w = let (r, w') = m w in elim r [ ok a ↦ (ok a, w') | err e ↦ h e w' ]

-- `UnitOfWork.withTransaction`: COMMIT on a result, ROLLBACK on an error, which is thrown again.
abbrev pub with_transaction : {W A : Type 0} → Action W A → Action W A
with_transaction m w = let (r, w') = m w in elim r [ ok a ↦ (ok a, w') | err e ↦ (err e, w) ]

-- A transaction that throws has changed nothing.
pub with_transaction_rollback :
    {W A : Type 0} (m : Action W A) (w : W) (e : Error)
    → (with_transaction m w).0 ≡ err e
    → (with_transaction m w).1 ≡ w
with_transaction_rollback m w e h = ground arith

pub Result-cases {ℓ} :
    {A : Type ℓ} (r : Result A) → ((a : A) × (r ≡ ok a)) ⊎ ((e : Error) × (r ≡ err e))
Result-cases (ok a) = inl (a, refl)
Result-cases (err e) = inr (e, refl)
