-- ===== src/Core/Projections/Checkpoints.antt =====
-- packages/postgres/src/projections/pg-projection-checkpoint-store.ts: one row for every pair of a
-- projection and a tenant, which is the table's primary key.
use eventfabric.Base.{
  ℕ, ◌≡◌, refl, max, Str, Bool, ◌&&◌, List, [], ◌∷◌, arith, leb, if◌then◌else◌, str_eq, str_eq→eq,
  str_eq_refl,
}

pub record Checkpoint : Type 0 where
  pub projection_name : Str
  pub tenant_id : Str
  pub last_global_position : ℕ

abbrev pub Checkpoints : Type 0
Checkpoints = List Checkpoint

-- `WHERE projection_name = $1 AND tenant_id = $2`
abbrev pub is_for : Str → Str → Checkpoint → Bool
is_for name tenant_id c = str_eq c.projection_name name && str_eq c.tenant_id tenant_id

-- The position of a pair; a pair without a row is at 0.
unfoldable pub position : Str → Str → Checkpoints → ℕ
position name tenant_id [] = 0
position name tenant_id (c ∷ cs) =
    if is_for name tenant_id c then c.last_global_position else position name tenant_id cs

-- A missing row is inserted at 0, and the position of a pair is read.
unfoldable pub get : Str → Str → Checkpoints → ℕ × Checkpoints
get name tenant_id [] =
    (0, record { projection_name = name; tenant_id = tenant_id; last_global_position = 0 } ∷ [])
get name tenant_id (c ∷ cs) =
    let (p, cs') = get name tenant_id cs in
    if is_for name tenant_id c then (c.last_global_position, c ∷ cs) else (p, c ∷ cs')

-- The upsert, which never sets a position back.
unfoldable pub set : Str → Str → ℕ → Checkpoints → Checkpoints
set name tenant_id p [] =
    record { projection_name = name; tenant_id = tenant_id; last_global_position = p } ∷ []
set name tenant_id p (c ∷ cs) =
    if is_for name tenant_id c
    then (if leb c.last_global_position p
        then record c { last_global_position = p } ∷ cs
        else c ∷ cs)
    else c ∷ set name tenant_id p cs

pub get-position :
    (name tenant_id : Str) (cs : Checkpoints)
    → (get name tenant_id cs).0 ≡ position name tenant_id cs
unfolding get position
get-position name tenant_id [] = refl
get-position name tenant_id (c ∷ cs) = ground (arith, get-position name tenant_id cs)

pub position-get :
    (name tenant_id n t : Str) (cs : Checkpoints)
    → position n t (get name tenant_id cs).1 ≡ position n t cs
unfolding get position
position-get name tenant_id n t [] = ground arith
position-get name tenant_id n t (c ∷ cs) = ground (arith, position-get name tenant_id n t cs)

-- A write moves the pair's position forward, or leaves it, and no other pair's.
pub position-set :
    (name tenant_id n t : Str) (p : ℕ) (cs : Checkpoints)
    → position n t (set name tenant_id p cs)
      ≡ (if str_eq name n && str_eq tenant_id t then max p (position n t cs) else position n t cs)
unfolding set position
position-set name tenant_id n t p [] = ground arith
position-set name tenant_id n t p (c ∷ cs) = ground (
  arith,
  position-set name tenant_id n t p cs,
  str_eq→eq c.projection_name name,
  str_eq→eq c.tenant_id tenant_id,
  str_eq→eq name n,
  str_eq→eq tenant_id t,
  str_eq→eq c.projection_name n,
  str_eq→eq c.tenant_id t,
  str_eq_refl n,
  str_eq_refl t,
)
