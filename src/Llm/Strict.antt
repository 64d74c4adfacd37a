-- ===== src/Llm/Strict.antt =====
-- What OpenAI's strict mode asks of a schema, for `_strict_schema` of `app/services/llm.py`.
use news2reel.Base.{
  ◌≡◌, refl, true, false, Option, none, some, Text, text_eq, text_eq_iff, Bool-cases, inl, inr,
}
use news2reel.Llm.Schema.{
  Json, bool, list, dict, Items, nil, cons, Fields, end, field, get, put, properties, required,
  additional_properties, keys, is_object,
}

-- Where `properties` holds a dict, which is not itself the schema of an object.
abbrev pub HasNames : Option Json → Type 0
HasNames none = Unit
HasNames (some (dict props)) = is_object props ≡ false
HasNames (some _) = ⊥

-- Every schema of an object in the tree names its properties in a dict.
abbrev mutual
  pub IsSchema : Json → Type 0
  IsSchema (list items) = AllSchema items
  IsSchema (dict fields) =
      (is_object fields ≡ true → HasNames (get properties fields)) × FieldsSchema fields
  IsSchema _ = Unit

  pub AllSchema : Items → Type 0
  AllSchema nil = Unit
  AllSchema (cons item items) = IsSchema item × AllSchema items

  pub FieldsSchema : Fields → Type 0
  FieldsSchema end = Unit
  FieldsSchema (field k value fields) = IsSchema value × FieldsSchema fields

-- It is closed, and requires exactly the properties that it names.
pub record IsClosed (fields : Fields) : Type 0 where
  pub no_more : get additional_properties fields ≡ some (bool false)
  pub all_required :
      (props : Fields) × (get properties fields ≡ some (dict props))
      × (get required fields ≡ some (list (keys props)))

abbrev mutual
  pub IsStrict : Json → Type 0
  IsStrict (list items) = AllStrict items
  IsStrict (dict fields) = (is_object fields ≡ true → IsClosed fields) × FieldsStrict fields
  IsStrict _ = Unit

  pub AllStrict : Items → Type 0
  AllStrict nil = Unit
  AllStrict (cons item items) = IsStrict item × AllStrict items

  pub FieldsStrict : Fields → Type 0
  FieldsStrict end = Unit
  FieldsStrict (field k value fields) = IsStrict value × FieldsStrict fields

pub get-put : (k : Text) (value : Json) (fields : Fields) → get k (put k value fields) ≡ some value
unfolding get put
get-put k value end = rw ((text_eq_iff k k).1 refl) refl
get-put k value (field j v fields) = elim (Bool-cases (text_eq j k)) [
  | inl same ↦ rw (same, same) refl
  | inr other ↦ rw (other, other) (get-put k value fields)
]

pub get-put_other :
    (k j : Text) (value : Json) (fields : Fields)
    → text_eq k j ≡ false
    → get j (put k value fields) ≡ get j fields
unfolding get put
get-put_other k j value end h = rw h refl
get-put_other k j value (field i v fields) h = elim (Bool-cases (text_eq i k)) [
  | inl same ↦ let e = (text_eq_iff i k).0 same in rw (same) (rw (e, h) refl)
  | inr other ↦ elim (Bool-cases (text_eq i j)) [
    | inl here ↦ rw (other, here) refl
    | inr there ↦ rw (other, there) (get-put_other k j value fields h)
  ]
]

pub FieldsStrict-put :
    (k : Text) (value : Json) (fields : Fields)
    → IsStrict value
    → FieldsStrict fields
    → FieldsStrict (put k value fields)
unfolding put
FieldsStrict-put k value end v h = (v, tt)
FieldsStrict-put k value (field j w fields) v h = elim (Bool-cases (text_eq j k)) [
  | inl same ↦ rw same (v, h.1)
  | inr other ↦ rw other (h.0, FieldsStrict-put k value fields v h.1)
]

pub keys-AllStrict : (fields : Fields) → AllStrict (keys fields)
keys-AllStrict end = tt
keys-AllStrict (field k value fields) = (tt, keys-AllStrict fields)
