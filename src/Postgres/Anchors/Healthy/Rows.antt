-- ===== src/Postgres/Anchors/Healthy/Rows.antt =====
-- The rows of sealed heads that `seal` of packages/postgres/src/chain-anchor-sealer.ts inserts.
use eventfabric.Base.{
  ℕ, ◌==◌, ◌<◌, ◌≤◌, ◌≡◌, inl, inr, refl, ap, Str, Bool, false, ◌&&◌, List, [], ◌∷◌, ◌++◌, map,
  keep, keep-append, All, arith, Bool-cases, str_eq, str_eq→eq, str_eq_refl, Ordered,
  order_by-Ordered_self,
}
use mathlib.Core.List.{append-nil}
use eventfabric.Core.Integrity.HashChain.{AnchorMember}
use eventfabric.Postgres.Anchors.Tables.{
  Anchor, SealedHead, is_anchor_of, is_sealed_in, members_of, member_before,
}
use eventfabric.Postgres.Anchors.Seal.{sealed_rows}
use eventfabric.Postgres.Anchors.Linked.{end_seq}

sealed_rows_self :
    (tenant : Str) (seq : ℕ) (ms : List AnchorMember)
    → keep (is_sealed_in tenant seq) (sealed_rows tenant seq ms) ≡ sealed_rows tenant seq ms
sealed_rows_self tenant seq [] = refl
sealed_rows_self tenant seq (m ∷ ms) =
    ground (arith, str_eq_refl tenant, sealed_rows_self tenant seq ms)

sealed_rows-member :
    (tenant : Str) (seq : ℕ) (ms : List AnchorMember)
    → map (λ r. r.member) (sealed_rows tenant seq ms) ≡ ms
sealed_rows-member tenant seq [] = refl
sealed_rows-member tenant seq (m ∷ ms) = ap (λ l. m ∷ l) (sealed_rows-member tenant seq ms)

sealed_rows-other :
    (t : Str) (k : ℕ) (tenant : Str) (seq : ℕ) (ms : List AnchorMember)
    → (str_eq tenant t && (seq == k)) ≡ false
    → keep (is_sealed_in t k) (sealed_rows tenant seq ms) ≡ []
sealed_rows-other t k tenant seq [] h = refl
sealed_rows-other t k tenant seq (m ∷ ms) h =
    ground (arith, h, sealed_rows-other t k tenant seq ms h)

pub sealed_rows-All {κ} :
    (Q : SealedHead → Type κ) (tenant : Str) (seq : ℕ) (ms : List AnchorMember)
    → All (λ m. Q (record { tenant_id = tenant; anchor_seq = seq; member = m })) ms
    → All Q (sealed_rows tenant seq ms)
sealed_rows-All Q tenant seq [] h = tt
sealed_rows-All Q tenant seq (m ∷ ms) h = (h.0, sealed_rows-All Q tenant seq ms h.1)

-- No sealed head of a tenant has a number above its anchors.
pub none_above :
    (tenant : Str) (seq : ℕ) (anchors : List Anchor) (rows : List SealedHead)
    → All (λ r. r.anchor_seq ≤ end_seq 0 (keep (is_anchor_of r.tenant_id) anchors)) rows
    → end_seq 0 (keep (is_anchor_of tenant) anchors) < seq
    → keep (is_sealed_in tenant seq) rows ≡ []
none_above tenant seq anchors [] h l = refl
none_above tenant seq anchors (r ∷ rs) h l = elim (Bool-cases (str_eq r.tenant_id tenant)) [
  | inl t ↦
      let below = rw (str_eq→eq r.tenant_id tenant t) at h.0 in
      let later = none_above tenant seq anchors rs h.1 l in ground (arith, t)
  | inr f ↦ ground (arith, f, none_above tenant seq anchors rs h.1 l)
]

module _ (text_before : Str → Str → Bool) (tenant : Str) (seq : ℕ) (ms : List AnchorMember)
    (rows : List SealedHead) where
  pub members_of-new :
      keep (is_sealed_in tenant seq) rows ≡ []
      → Ordered (member_before text_before) ms
      → members_of text_before tenant seq (rows ++ sealed_rows tenant seq ms) ≡ ms
  unfolding members_of
  members_of-new e o =
      rw
        (
          keep-append (is_sealed_in tenant seq) rows (sealed_rows tenant seq ms),
          e,
          sealed_rows_self tenant seq ms,
          sealed_rows-member tenant seq ms,
        )
        (order_by-Ordered_self (member_before text_before) ms o)

  pub members_of-old :
      (t : Str) (k : ℕ)
      → (str_eq tenant t && (seq == k)) ≡ false
      → members_of text_before t k (rows ++ sealed_rows tenant seq ms)
        ≡ members_of text_before t k rows
  unfolding members_of
  members_of-old t k h =
      rw
        (
          keep-append (is_sealed_in t k) rows (sealed_rows tenant seq ms),
          sealed_rows-other t k tenant seq ms h,
          append-nil (keep (is_sealed_in t k) rows),
        )
        refl

pub All-always {ℓ κ} : {A : Type ℓ} (Q : Type κ) (xs : List A) → Q → All (λ _. Q) xs
All-always Q [] q = tt
All-always Q (x ∷ xs) q = (q, All-always Q xs q)
