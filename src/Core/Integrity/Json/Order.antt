-- ===== src/Core/Integrity/Json/Order.antt =====
-- The canonical text does not depend on the order in which the keys of an object were inserted.
use eventfabric.Base.{◌≡◌, ◌≢◌, refl, ◌∙◌, Str, true, false, List, [], ◌∷◌, arith}
use eventfabric.Core.Integrity.Json.{
  Json, Items, Fields, null, arr, obj, no_items, item, no_fields, field, Entry, str_leb,
  insert_entry, sort_entries, is_undefined, serialize, item_texts, entries, undefined,
}

str_leb_total : (s t : Str) → str_leb s t ≡ false → str_leb t s ≡ true
unfolding str_leb
str_leb_total [] t h = cc
str_leb_total (a ∷ s) [] h = refl
str_leb_total (a ∷ s) (b ∷ t) h = ground (arith, h, str_leb_total s t)

str_leb_antisym : (s t : Str) → str_leb s t ≡ true → str_leb t s ≡ true → s ≡ t
unfolding str_leb
str_leb_antisym [] [] h k = refl
str_leb_antisym [] (b ∷ t) h k = cc
str_leb_antisym (a ∷ s) [] h k = cc
str_leb_antisym (a ∷ s) (b ∷ t) h k = ground (arith, h, k, str_leb_antisym s t)

str_leb_trans : (s t u : Str) → str_leb s t ≡ true → str_leb t u ≡ true → str_leb s u ≡ true
unfolding str_leb
str_leb_trans [] t u h k = refl
str_leb_trans (a ∷ s) [] u h k = cc
str_leb_trans (a ∷ s) (b ∷ t) [] h k = cc
str_leb_trans (a ∷ s) (b ∷ t) (c ∷ u) h k = ground (arith, h, k, str_leb_trans s t u)

insert_entry_comm :
    (a b : Entry) (xs : List Entry)
    → a.0 ≢ b.0
    → insert_entry a (insert_entry b xs) ≡ insert_entry b (insert_entry a xs)
unfolding insert_entry
insert_entry_comm a b [] ne = ground (arith, ne, str_leb_total a.0 b.0, str_leb_antisym a.0 b.0)
insert_entry_comm a b (x ∷ xs) ne = ground (
  arith,
  ne,
  insert_entry_comm a b xs ne,
  str_leb_total a.0 b.0,
  str_leb_antisym a.0 b.0,
  str_leb_trans a.0 b.0 x.0,
  str_leb_trans b.0 a.0 x.0,
)

-- Values that differ, at any depth, in the order of keys, in keys with the value `undefined`, or in
-- `undefined` for null in an array: what a JSON text and jsonb do to a value.
mutual
  pub data SameJson : Json → Json → Type 0 where
    same : (v : Json) → SameJson v v
    arrays : {vs ws : Items} → SameItems vs ws → SameJson (arr vs) (arr ws)
    objects : {fs gs : Fields} → SameFields fs gs → SameJson (obj fs) (obj gs)

  pub data SameItems : Items → Items → Type 0 where
    no_more : SameItems no_items no_items
    both :
        {v w : Json} {vs ws : Items}
        → SameJson v w
        → SameItems vs ws
        → SameItems (item v vs) (item w ws)
    nulled : {vs ws : Items} → SameItems vs ws → SameItems (item undefined vs) (item null ws)

  pub data SameFields : Fields → Fields → Type 0 where
    none_left : SameFields no_fields no_fields
    dropped :
        {fs gs : Fields} (key : Str) → SameFields fs gs → SameFields (field key undefined fs) gs
    keep_first :
        {v w : Json} {fs gs : Fields} (key : Str)
        → SameJson v w
        → SameFields fs gs
        → SameFields (field key v fs) (field key w gs)
    swap_first :
        (key key' : Str) (v v' : Json) (fs : Fields)
        → key ≢ key'
        → SameFields (field key v (field key' v' fs)) (field key' v' (field key v fs))
    then_next : {fs gs hs : Fields} → SameFields fs gs → SameFields gs hs → SameFields fs hs

is_undefined-same : {v w : Json} → SameJson v w → is_undefined v ≡ is_undefined w
is_undefined-same (same v) = refl
is_undefined-same (arrays p) = refl
is_undefined-same (objects p) = refl

module _ (quote : Str → Str) where
  sorted : Fields → List Entry
  sorted fs = sort_entries (entries quote fs)

  sorted-swap :
      (key key' : Str) (v v' : Json) (fs : Fields)
      → key ≢ key'
      → sorted (field key v (field key' v' fs)) ≡ sorted (field key' v' (field key v fs))
  unfolding sorted entries sort_entries
  sorted-swap key key' v v' fs ne = ground (
    arith,
    insert_entry_comm (key, serialize quote v) (key', serialize quote v')
        (sort_entries (entries quote fs)) ne,
  )

  sorted-keep :
      (key : Str) (v w : Json) (fs gs : Fields)
      → is_undefined v ≡ is_undefined w
      → serialize quote v ≡ serialize quote w
      → sorted fs ≡ sorted gs
      → sorted (field key v fs) ≡ sorted (field key w gs)
  unfolding sorted entries sort_entries
  sorted-keep key v w fs gs u e h = ground (arith, u, e, h)

  mutual
    unfolding serialize item_texts sorted

    serialize-same : {v w : Json} → SameJson v w → serialize quote v ≡ serialize quote w
    serialize-same (same v) = refl
    serialize-same (arrays p) = rw (item_texts-same p) refl
    serialize-same (objects p) = rw (sorted-same p) refl

    item_texts-same : {vs ws : Items} → SameItems vs ws → item_texts quote vs ≡ item_texts quote ws
    item_texts-same no_more = refl
    item_texts-same (both p q) = rw (is_undefined-same p, serialize-same p, item_texts-same q) refl
    item_texts-same (nulled q) = rw (item_texts-same q) refl

    sorted-same : {fs gs : Fields} → SameFields fs gs → sorted fs ≡ sorted gs
    sorted-same none_left = refl
    sorted-same (dropped key q) = sorted-same q
    sorted-same (keep_first {v} {w} {fs} {gs} key p q) =
        sorted-keep key v w fs gs (is_undefined-same p) (serialize-same p) (sorted-same q)
    sorted-same (swap_first key key' v v' fs ne) = sorted-swap key key' v v' fs ne
    sorted-same (then_next p q) = sorted-same p ∙ sorted-same q

  -- Values that differ in the order of their keys, in keys with the value `undefined`, or in
  -- `undefined` for null in an array have one canonical text, or fail with one error.
  pub serialize-SameJson : (v w : Json) → SameJson v w → serialize quote v ≡ serialize quote w
  serialize-SameJson v w p = serialize-same p
