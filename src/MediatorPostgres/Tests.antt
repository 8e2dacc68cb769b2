-- ===== src/MediatorPostgres/Tests.antt =====
-- Runs of packages/mediator-postgres at concrete data.
use eventfabric.Base.{ℕ, ◌≡◌, refl, Str, codes, false, none, some, List, [], ◌∷◌, arith, str_eq}
use eventfabric.Mediator.Idempotency.{ClaimResult, claimed, done, busy}
use eventfabric.MediatorPostgres.IdempotencyStore.{
  SlotRow, claim, complete, insert_or_reclaim, insert_or_nothing, find_slot, has_slot,
  reset_stale_in_flight, update_where,
}
use eventfabric.MediatorPostgres.IdempotencyStore.Done.{SlotCall, after_calls}
use eventfabric.MediatorPostgres.IdempotencyStore.Once.{claim-complete}

abbrev acme : Str
acme = codes "acme"

abbrev other_tenant : Str
other_tenant = codes "other"

abbrev key : Str
key = codes "k1"

abbrev still : List (SlotRow ℕ) → List (SlotRow ℕ)
still rows = rows

-- Another tenant uses the key, a cron job looks for stale and old rows.
abbrev later_calls : List (Str × SlotCall ℕ)
later_calls =
    (other_tenant, SlotCall.claims still still none key (codes "pay") (codes "c2") 20)
    ∷ (other_tenant, SlotCall.completes key none 5 21)
    ∷ (acme, SlotCall.resets 100 none none 200)
    ∷ (acme, SlotCall.cleans 10)
    ∷ []

abbrev first_claim : ClaimResult ℕ × List (SlotRow ℕ)
first_claim = claim 0 still still acme none key (codes "pay") (codes "c1") 10 []

first_claim_done : first_claim.0 ≡ claimed
unfolding claim insert_or_reclaim
first_claim_done = refl

other_key : str_eq acme other_tenant ≡ false
unfolding str_eq
other_key = refl

claim-complete_example :
    (claim 0 still still other_tenant
      (some acme)
      key
      (codes "pay")
      (codes "c3")
      300
      (after_calls 0 (λ x. x) later_calls (complete (λ x. x) acme key none 7 11 first_claim.1))).0
    ≡ done 7
unfolding str_eq
claim-complete_example =
    claim-complete 0 (λ x. x) still still still still acme other_tenant none (some acme) key
      (codes "pay") (codes "c1") (codes "pay") (codes "c3") 10 11 300 7 [] later_calls refl
      first_claim_done ((λ rows h. h, λ rows h. h), (refl, (tt, (omega arith, tt)))) (λ rows h. h)

-- A worker that crashed leaves its slot in flight: the key is refused until the watchdog has come.
crashed_busy :
    (claim 0 still still acme none key (codes "pay") (codes "c2") 20 first_claim.1).0 ≡ busy
unfolding claim insert_or_reclaim insert_or_nothing find_slot has_slot str_eq
crashed_busy = refl

crashed_reset :
    (claim 0 still still acme none key
      (codes "pay")
      (codes "c2")
      400
      (reset_stale_in_flight 100 none none 300 first_claim.1).0).0
    ≡ claimed
unfolding claim insert_or_reclaim reset_stale_in_flight update_where has_slot str_eq
crashed_reset = refl
