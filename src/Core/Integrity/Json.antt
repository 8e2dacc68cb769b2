-- ===== src/Core/Integrity/Json.antt =====
-- `canonicalJson` of packages/core/src/integrity/hash-chain.ts. A value stands for what `typeof`
-- tells of it: a finite number by its `JSON.stringify` text, the other numbers by their text alone.
pub mod Order
use eventfabric.Base.{
  ℕ, Str, codes, Bool, true, false, List, [], ◌∷◌, ◌++◌, ltb, ◌==◌, if◌then◌else◌, Result, ok, err,
  Error, thrown, and_then,
}

mutual
  pub data Json : Type 0 where
    null : Json
    bool : Bool → Json
    num : Str → Json
    not_finite : Str → Json
    bigint : Json
    str : Str → Json
    arr : Items → Json
    obj : Fields → Json
    undefined : Json
    other : Str → Json

  pub data Items : Type 0 where
    no_items : Items
    item : Json → Items → Items

  pub data Fields : Type 0 where
    no_fields : Fields
    field : Str → Json → Fields → Fields

-- The order of `Array.prototype.sort` on strings: by code units, a prefix first.
unfoldable pub str_leb : Str → Str → Bool
str_leb [] t = true
str_leb (a ∷ s) [] = false
str_leb (a ∷ s) (b ∷ t) = if ltb a b then true else if a == b then str_leb s t else false

-- A property with the text of its value, or the error that serializing it throws.
abbrev pub Entry : Type 0
Entry = Str × Result Str

unfoldable pub insert_entry : Entry → List Entry → List Entry
unfolding str_leb
insert_entry e [] = e ∷ []
insert_entry e (x ∷ xs) = if str_leb e.0 x.0 then e ∷ x ∷ xs else x ∷ insert_entry e xs

unfoldable pub sort_entries : List Entry → List Entry
unfolding insert_entry
sort_entries [] = []
sort_entries (e ∷ es) = insert_entry e (sort_entries es)

abbrev pub is_undefined : Json → Bool
is_undefined undefined = true
is_undefined _ = false

-- `join(",")`, and the first error in the order of the texts.
unfoldable pub join : List (Result Str) → Result Str
join [] = ok []
join (r ∷ []) = r
join (r ∷ s ∷ rs) =
    let rest = join (s ∷ rs) in
    and_then r (λ text. and_then rest (λ texts. ok (text ++ (codes "," ++ texts))))

-- `JSON.stringify` of strings.
module _ (quote : Str → Str) where
  unfoldable pub entry_text : Entry → Result Str
  entry_text (key, value) = and_then value (λ text. ok (quote key ++ (codes ":" ++ text)))

  unfoldable pub entry_texts : List Entry → List (Result Str)
  unfolding entry_text
  entry_texts [] = []
  entry_texts (e ∷ es) = entry_text e ∷ entry_texts es

  abbrev pub enclosed : Str → Result Str → Str → Result Str
  enclosed opening body closing = and_then body (λ text. ok (opening ++ (text ++ closing)))

  -- `serialize`; an `undefined` item counts as null, an `undefined` property is dropped.
  unfoldable mutual
    unfolding join entry_texts sort_entries

    pub serialize : Json → Result Str
    serialize null = ok (codes "null")
    serialize (bool true) = ok (codes "true")
    serialize (bool false) = ok (codes "false")
    serialize (num text) = ok text
    serialize (not_finite text) =
        err (thrown (codes "canonicalJson: non-finite number cannot be hashed: " ++ text))
    serialize bigint =
        err (thrown (codes "canonicalJson: bigint is not supported in chainable event payloads"))
    serialize (str s) = ok (quote s)
    serialize (arr items) = enclosed (codes "[") (join (item_texts items)) (codes "]")
    serialize (obj fields) =
        enclosed (codes "{") (join (entry_texts (sort_entries (entries fields)))) (codes "}")
    serialize undefined = err (thrown (codes "canonicalJson: unsupported value of type undefined"))
    serialize (other type) =
        err (thrown (codes "canonicalJson: unsupported value of type " ++ type))

    pub item_texts : Items → List (Result Str)
    item_texts no_items = []
    item_texts (item v vs) =
        let text = serialize v in
        (if is_undefined v then ok (codes "null") else text) ∷ item_texts vs

    pub entries : Fields → List Entry
    entries no_fields = []
    entries (field key v fs) =
        let text = serialize v in
        let rest = entries fs in if is_undefined v then rest else (key, text) ∷ rest
