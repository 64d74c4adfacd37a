-- ===== src/Llm/Bare.antt =====
-- What the walk of `_strict_schema` keeps: everything but the two keys that it sets.
use mathlib.Core.Path.{ap₂}
use news2reel.Base.{
  ◌≡◌, refl, ap, ◌∙◌, true, false, Option, none, some, Text, codes, text_eq, text_eq_iff,
  if◌then◌else◌, Bool-cases, inl, inr,
}
use news2reel.Llm.Schema.{
  Json, null, bool, number, text, list, dict, Items, nil, cons, Fields, end, field, put, properties,
  required, additional_properties, is_object, sealed, closed, with_item, with_field, as_list, walk,
  walk_items, walk_fields, strict_schema, required_of, get,
}
use news2reel.Llm.Strict.{IsSchema, AllSchema, FieldsSchema, IsStrict}
use news2reel.Llm.Walked.{
  Walked, FieldsWalked, with_both, is_object-alike, get-with_both, walk-Walked, walk_fields-Walked,
}

unfoldable pub drop_key : Text → Fields → Fields
drop_key key end = end
drop_key key (field k value fields) =
    let rest = drop_key key fields in if text_eq k key then rest else field k value rest

abbrev unlocked : Fields → Fields → Json
unlocked fields bare_ones =
    if is_object fields
    then dict (drop_key required (drop_key additional_properties bare_ones))
    else dict bare_ones

-- The tree without the two keys on its schemas of objects.
unfoldable mutual
  pub bare : Json → Json
  bare null = null
  bare (bool b) = bool b
  bare (number literal) = number literal
  bare (text s) = text s
  bare (list items) = list (bare_items items)
  bare (dict fields) = unlocked fields (bare_fields fields)

  pub bare_items : Items → Items
  bare_items nil = nil
  bare_items (cons item items) = cons (bare item) (bare_items items)

  pub bare_fields : Fields → Fields
  bare_fields end = end
  bare_fields (field k value fields) = field k (bare value) (bare_fields fields)

bare_fields-put :
    (k : Text) (value : Json) (fields : Fields)
    → bare_fields (put k value fields) ≡ put k (bare value) (bare_fields fields)
unfolding bare put
bare_fields-put k value end = refl
bare_fields-put k value (field j v fields) = elim (Bool-cases (text_eq j k)) [
  | inl same ↦ rw same refl
  | inr other ↦ rw other (ap (field j (bare v)) (bare_fields-put k value fields))
]

drop_key-put :
    (k : Text) (value : Json) (fields : Fields)
    → drop_key k (put k value fields) ≡ drop_key k fields
unfolding drop_key put
drop_key-put k value end = rw ((text_eq_iff k k).1 refl) refl
drop_key-put k value (field j v fields) = elim (Bool-cases (text_eq j k)) [
  | inl same ↦ rw (same, same) refl
  | inr other ↦ rw (other, other) (ap (field j v) (drop_key-put k value fields))
]

drop_key-put_other :
    (j k : Text) (value : Json) (fields : Fields)
    → text_eq k j ≡ false
    → drop_key j (put k value fields) ≡ put k value (drop_key j fields)
unfolding drop_key put
drop_key-put_other j k value end h = rw h refl
drop_key-put_other j k value (field i v fields) h = elim (Bool-cases (text_eq i k)) [
  | inl same ↦
      let e = (text_eq_iff i k).0 same in rw (same) (rw (e, h) (rw ((text_eq_iff k k).1 refl) refl))
  | inr other ↦ elim (Bool-cases (text_eq i j)) [
    | inl here ↦ rw (other, here) (drop_key-put_other j k value fields h)
    | inr there ↦
        rw (other, there) (rw other (ap (field i v) (drop_key-put_other j k value fields h)))
  ]
]

bare_fields-with_both :
    (names : Items) (fields : Fields)
    → drop_key required (drop_key additional_properties (bare_fields (with_both names fields)))
      ≡ drop_key required (drop_key additional_properties (bare_fields fields))
unfolding text_eq
bare_fields-with_both names fields =
    rw
      (
        bare_fields-put required (list names) (put additional_properties (bool false) fields),
        bare_fields-put additional_properties (bool false) fields,
        drop_key-put_other additional_properties required (bare (list names))
            (put additional_properties (bare (bool false)) (bare_fields fields)) refl,
        drop_key-put required (bare (list names)) (
            drop_key additional_properties
              (put additional_properties (bare (bool false)) (bare_fields fields))),
        drop_key-put additional_properties (bare (bool false)) (bare_fields fields),
      )
      refl

is_object-with_both :
    (names : Items) (fields : Fields) → is_object (with_both names fields) ≡ is_object fields
unfolding is_object text_eq
is_object-with_both names fields =
    rw
      (
        get-with_both (codes "type") names fields refl refl,
        get-with_both properties names fields refl refl,
      )
      refl

abbrev Keeps : Json → Option Json → Type 0
Keeps j none = Unit
Keeps j (some j') = bare j' ≡ bare j

abbrev ItemsKeep : Items → Option Items → Type 0
ItemsKeep items none = Unit
ItemsKeep items (some items') = bare_items items' ≡ bare_items items

abbrev FieldsKeep : Fields → Option Fields → Type 0
FieldsKeep fields none = Unit
FieldsKeep fields (some fields') = bare_fields fields' ≡ bare_fields fields

as_list-Keeps :
    (items : Items) (walked : Option Items)
    → ItemsKeep items walked
    → Keeps (list items) (as_list walked)
unfolding bare
as_list-Keeps items none h = tt
as_list-Keeps items (some walked) h = ap list h

with_item-Keep :
    (item : Json) (items : Items) (walked : Option Json) (rest : Option Items)
    → Keeps item walked
    → ItemsKeep items rest
    → ItemsKeep (cons item items) (with_item walked rest)
unfolding bare
with_item-Keep item items none rest h r = tt
with_item-Keep item items (some walked) none h r = tt
with_item-Keep item items (some walked) (some rest) h r = ap₂ cons h r

with_field-Keep :
    (k : Text) (value : Json) (fields : Fields) (walked : Option Json) (rest : Option Fields)
    → Keeps value walked
    → FieldsKeep fields rest
    → FieldsKeep (field k value fields) (with_field k walked rest)
unfolding bare
with_field-Keep k value fields none rest h r = tt
with_field-Keep k value fields (some walked) none h r = tt
with_field-Keep k value fields (some walked) (some rest) h r = ap₂ (field k) h r

sealed-Keeps :
    (fields fields' : Fields) (names : Option Items)
    → is_object fields ≡ true
    → is_object fields' ≡ true
    → bare_fields fields' ≡ bare_fields fields
    → Keeps (dict fields) (sealed names fields')
unfolding bare
sealed-Keeps fields fields' none object object' h = tt
sealed-Keeps fields fields' (some names) object object' h =
    rw (object, is_object-with_both names fields', object', bare_fields-with_both names fields', h)
      refl

closed-Keeps :
    (fields : Fields) (walked : Option Fields)
    → FieldsWalked fields walked
    → FieldsKeep fields walked
    → Keeps (dict fields) (closed fields walked)
unfolding bare
closed-Keeps fields none w h = tt
closed-Keeps fields (some fields') w h =
    let same = is_object-alike fields fields' w.2 in
    elim (Bool-cases (is_object fields)) [
      | inl object ↦ rw object (
          sealed-Keeps fields fields' (required_of (get properties fields)) object (same ∙ object)
            h)
      | inr plain ↦ rw (plain, same, plain) (ap dict h)
    ]

mutual
  unfolding walk bare

  walk-Keeps : (j : Json) → IsSchema j → Keeps j (walk j)
  walk-Keeps null h = refl
  walk-Keeps (bool b) h = refl
  walk-Keeps (number literal) h = refl
  walk-Keeps (text s) h = refl
  walk-Keeps (list items) h = as_list-Keeps items (walk_items items) (walk_items-Keep items h)
  walk-Keeps (dict fields) h =
      closed-Keeps fields (walk_fields fields) (walk_fields-Walked fields h.1)
        (walk_fields-Keep fields h.1)

  walk_items-Keep : (items : Items) → AllSchema items → ItemsKeep items (walk_items items)
  walk_items-Keep nil h = refl
  walk_items-Keep (cons item items) h =
      with_item-Keep item items (walk item) (walk_items items) (walk-Keeps item h.0)
        (walk_items-Keep items h.1)

  walk_fields-Keep :
      (fields : Fields) → FieldsSchema fields → FieldsKeep fields (walk_fields fields)
  walk_fields-Keep end h = refl
  walk_fields-Keep (field k value fields) h =
      with_field-Keep k value fields (walk value) (walk_fields fields) (walk-Keeps value h.0)
        (walk_fields-Keep fields h.1)

result-lem :
    (j : Json) (walked : Option Json)
    → Walked j walked
    → Keeps j walked
    → (j' : Json) × (walked ≡ some j') × IsStrict j' × (bare j' ≡ bare j)
result-lem j none w h = absurd w
result-lem j (some j') w h = (j', refl, w.0, h)

-- On a schema whose objects name their properties in dicts, the walk raises nothing. In the result
-- every schema of an object, however deep, allows no other property and requires exactly the ones
-- that it names, in their order; and but for these two keys of it, nothing is changed anywhere.
pub strict_schema_lem :
    (schema : Json)
    → IsSchema schema
    → (strict : Json) × (strict_schema schema ≡ some strict)
      × IsStrict strict
      × (bare strict ≡ bare schema)
unfolding strict_schema
strict_schema_lem schema h =
    result-lem schema (walk schema) (walk-Walked schema h) (walk-Keeps schema h)
