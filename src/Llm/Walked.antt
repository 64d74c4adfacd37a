-- ===== src/Llm/Walked.antt =====
-- The schema behind the walk of `_strict_schema`, node by node.
use mathlib.Core.Path.{ap₂}
use news2reel.Base.{
  ◌≡◌, refl, sym, ap, ◌∙◌, true, false, ◌&&◌, not, Option, none, some, is_none, Text, codes,
  text_eq, arith, Bool-cases, inl, inr,
}
use news2reel.Llm.Schema.{
  Json, null, bool, number, text, list, dict, Items, nil, cons, Fields, end, field, get, put,
  properties, required, additional_properties, keys, says_object, is_object, required_of, sealed,
  closed, with_item, with_field, as_list, walk, walk_items, walk_fields,
}
use news2reel.Llm.Strict.{
  HasNames, IsSchema, AllSchema, FieldsSchema, IsClosed, IsStrict, AllStrict, FieldsStrict, get-put,
  get-put_other, FieldsStrict-put, keys-AllStrict,
}

-- The walk tells a text from a text as before, and keeps the names of a dict that is no object's schema.
abbrev pub SameNames : Json → Json → Type 0
SameNames (dict props) (dict props') = is_object props ≡ false → keys props' ≡ keys props
SameNames (dict props) _ = ⊥
SameNames _ _ = Unit

abbrev pub IsAlike : Json → Json → Type 0
IsAlike j j' = (says_object (some j') ≡ says_object (some j)) × SameNames j j'

abbrev pub Walked : Json → Option Json → Type 0
Walked j none = ⊥
Walked j (some j') = IsStrict j' × IsAlike j j'

abbrev ItemsWalked : Option Items → Type 0
ItemsWalked none = ⊥
ItemsWalked (some items) = AllStrict items

abbrev pub GetAlike : Option Json → Option Json → Type 0
GetAlike none none = Unit
GetAlike (some v) (some v') = IsAlike v v'
GetAlike _ _ = ⊥

abbrev pub FieldsWalked : Fields → Option Fields → Type 0
FieldsWalked fields none = ⊥
FieldsWalked fields (some fields') =
    FieldsStrict fields'
    × (keys fields' ≡ keys fields)
    × ((k : Text) → GetAlike (get k fields) (get k fields'))

with_item-Walked :
    (j : Json) (item : Option Json) (items : Option Items)
    → Walked j item
    → ItemsWalked items
    → ItemsWalked (with_item item items)
with_item-Walked j none items h rest = absurd h
with_item-Walked j (some item) none h rest = absurd rest
with_item-Walked j (some item) (some items) h rest = (h.0, rest)

as_list-Walked :
    (items : Items) (walked : Option Items)
    → ItemsWalked walked
    → Walked (list items) (as_list walked)
as_list-Walked items none h = absurd h
as_list-Walked items (some walked) h = (h, (refl, tt))

with_field-Walked :
    (k : Text) (value : Json) (fields : Fields) (walked : Option Json) (rest : Option Fields)
    → Walked value walked
    → FieldsWalked fields rest
    → FieldsWalked (field k value fields) (with_field k walked rest)
unfolding get
with_field-Walked k value fields none rest h r = absurd h
with_field-Walked k value fields (some walked) none h r = absurd r
with_field-Walked k value fields (some walked) (some rest) h (strict, same, alike) = (
  (h.0, strict),
  ap (cons (text k)) same,
  λ key. elim (Bool-cases (text_eq k key)) [
    | inl here ↦ rw here h.1
    | inr there ↦ rw there (alike key)
  ],
)

says-alike :
    (found found' : Option Json) → GetAlike found found' → says_object found' ≡ says_object found
says-alike none none h = refl
says-alike none (some v') h = absurd h
says-alike (some v) none h = absurd h
says-alike (some v) (some v') h = h.0

there-alike :
    (found found' : Option Json)
    → GetAlike found found'
    → not (is_none found') ≡ not (is_none found)
there-alike none none h = refl
there-alike none (some v') h = absurd h
there-alike (some v) none h = absurd h
there-alike (some v) (some v') h = refl

-- the test of the walk, on values that are alike
pub is_object-alike :
    (fields fields' : Fields)
    → ((k : Text) → GetAlike (get k fields) (get k fields'))
    → is_object fields' ≡ is_object fields
unfolding is_object
is_object-alike fields fields' alike =
    ap₂ ◌&&◌
      (says-alike (get (codes "type") fields) (get (codes "type") fields') (alike (codes "type")))
      (there-alike (get properties fields) (get properties fields') (alike properties))

-- the two keys, and what they leave of the others
abbrev pub with_both : Items → Fields → Fields
with_both names fields = put required (list names) (put additional_properties (bool false) fields)

pub get-with_both :
    (k : Text) (names : Items) (fields : Fields)
    → text_eq required k ≡ false
    → text_eq additional_properties k ≡ false
    → get k (with_both names fields) ≡ get k fields
get-with_both k names fields r a =
    get-put_other required k (list names) _ r
    ∙ get-put_other additional_properties k (bool false) fields a

names-alike :
    (props : Fields) (found : Option Json)
    → is_object props ≡ false
    → GetAlike (some (dict props)) found
    → (props' : Fields) × (found ≡ some (dict props')) × (keys props' ≡ keys props)
names-alike props (some (dict props')) plain h = (props', refl, h.1 plain)
names-alike props (some null) plain h = absurd h.1
names-alike props (some (bool b)) plain h = absurd h.1
names-alike props (some (number literal)) plain h = absurd h.1
names-alike props (some (text s)) plain h = absurd h.1
names-alike props (some (list items)) plain h = absurd h.1
names-alike props none plain h = absurd h

with_both-IsClosed :
    (props fields' : Fields)
    → is_object props ≡ false
    → GetAlike (some (dict props)) (get properties fields')
    → IsClosed (with_both (keys props) fields')
unfolding text_eq
with_both-IsClosed props fields' plain alike =
    let (props', there, same) = names-alike props (get properties fields') plain alike in
    record {
      no_more =
          get-put_other required additional_properties (list (keys props)) _ refl
          ∙ get-put additional_properties (bool false) fields';
      all_required = (
        props',
        get-with_both properties (keys props) fields' refl refl ∙ there,
        get-put required (list (keys props)) _ ∙ ap (λ names. some (list names)) (sym same),
      );
    }

sealed-Walked :
    (fields fields' : Fields) (found : Option Json)
    → is_object fields ≡ true
    → get properties fields ≡ found
    → HasNames found
    → FieldsWalked fields (some fields')
    → Walked (dict fields) (sealed (required_of found) fields')
unfolding is_object
sealed-Walked fields fields' none object there named h = absurd (ground arith)
sealed-Walked fields fields' (some (dict props)) object there named (strict, same, alike) = (
  (
    λ _. with_both-IsClosed props fields' named (rw (← there) (alike properties)),
    FieldsStrict-put required (list (keys props)) _ (keys-AllStrict props)
        (FieldsStrict-put additional_properties (bool false) fields' tt strict),
  ),
  (refl, λ plain. absurd (ground arith)),
)
sealed-Walked fields fields' (some null) object there named h = absurd named
sealed-Walked fields fields' (some (bool b)) object there named h = absurd named
sealed-Walked fields fields' (some (number literal)) object there named h = absurd named
sealed-Walked fields fields' (some (text s)) object there named h = absurd named
sealed-Walked fields fields' (some (list items)) object there named h = absurd named

closed-Walked :
    (fields : Fields) (walked : Option Fields)
    → (is_object fields ≡ true → HasNames (get properties fields))
    → FieldsWalked fields walked
    → Walked (dict fields) (closed fields walked)
closed-Walked fields none named h = absurd h
closed-Walked fields (some fields') named h = elim (Bool-cases (is_object fields)) [
  | inl object ↦
      rw object (sealed-Walked fields fields' (get properties fields) object refl (named object) h)
  | inr plain ↦
      let same = is_object-alike fields fields' h.2 in
      rw plain ((λ object. absurd (ground (arith, same)), h.0), (refl, λ _. h.1))
]

mutual
  unfolding walk get

  pub walk-Walked : (j : Json) → IsSchema j → Walked j (walk j)
  walk-Walked null h = (tt, (refl, tt))
  walk-Walked (bool b) h = (tt, (refl, tt))
  walk-Walked (number literal) h = (tt, (refl, tt))
  walk-Walked (text s) h = (tt, (refl, tt))
  walk-Walked (list items) h = as_list-Walked items (walk_items items) (walk_items-Walked items h)
  walk-Walked (dict fields) h =
      closed-Walked fields (walk_fields fields) h.0 (walk_fields-Walked fields h.1)

  walk_items-Walked : (items : Items) → AllSchema items → ItemsWalked (walk_items items)
  walk_items-Walked nil h = tt
  walk_items-Walked (cons item items) h =
      with_item-Walked item (walk item) (walk_items items) (walk-Walked item h.0)
        (walk_items-Walked items h.1)

  pub walk_fields-Walked :
      (fields : Fields) → FieldsSchema fields → FieldsWalked fields (walk_fields fields)
  walk_fields-Walked end h = (tt, refl, λ k. tt)
  walk_fields-Walked (field k value fields) h =
      with_field-Walked k value fields (walk value) (walk_fields fields) (walk-Walked value h.0)
        (walk_fields-Walked fields h.1)
