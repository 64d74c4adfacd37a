-- ===== src/Llm/Schema.antt =====
-- `_strict_schema` of `app/services/llm.py`: the walk over the JSON schema that pydantic derives. The
-- schema is a tree; a dict is an association list in the order of its insertions.
use news2reel.Base.{
  Bool, false, ◌&&◌, not, Option, none, some, is_none, [], ◌∷◌, if◌then◌else◌, Text, codes, text_eq,
}

mutual
  pub data Json : Type 0 where
    null : Json
    bool : Bool → Json
    number : (literal : Text) → Json
    text : Text → Json
    list : Items → Json
    dict : Fields → Json

  pub data Items : Type 0 where
    nil : Items
    cons : Json → Items → Items

  pub data Fields : Type 0 where
    end : Fields
    field : Text → Json → Fields → Fields

-- `node.get(key)`, and `node[key] = value`, which keeps the place of a key that is there
unfoldable pub get : Text → Fields → Option Json
get key end = none
get key (field k value fields) = if text_eq k key then some value else get key fields

unfoldable pub put : Text → Json → Fields → Fields
put key value end = field key value end
put key value (field k v fields) =
    let rest = put key value fields in
    if text_eq k key then field k value fields else field k v rest

abbrev pub properties : Text
properties = codes "properties"

abbrev pub required : Text
required = codes "required"

abbrev pub additional_properties : Text
additional_properties = codes "additionalProperties"

-- `list(…)` of a dict is its keys; the characters of a text are texts
abbrev pub keys : Fields → Items
keys end = nil
keys (field k value fields) = cons (text k) (keys fields)

abbrev pub characters : Text → Items
characters [] = nil
characters (c ∷ s) = cons (text (c ∷ [])) (characters s)

-- `list(node["properties"])`, a `TypeError` where that is no sequence
abbrev pub listed : Json → Option Items
listed (dict fields) = some (keys fields)
listed (list items) = some items
listed (text s) = some (characters s)
listed null = none
listed (bool b) = none
listed (number literal) = none

abbrev pub says_object : Option Json → Bool
says_object (some (text s)) = text_eq s (codes "object")
says_object _ = false

-- `node.get("type") == "object" and "properties" in node`
unfoldable pub is_object : Fields → Bool
is_object fields = says_object (get (codes "type") fields) && not (is_none (get properties fields))

abbrev pub required_of : Option Json → Option Items
required_of none = none
required_of (some value) = listed value

abbrev pub sealed : Option Items → Fields → Option Json
sealed none walked = none
sealed (some names) walked =
    some (dict (put required (list names) (put additional_properties (bool false) walked)))

-- The tests and the names are those of the dict before the walk. The values of the two keys that
-- are set hold no dict, so that the walk leaves them, and they are set behind it.
abbrev pub closed : Fields → Option Fields → Option Json
closed fields none = none
closed fields (some walked) =
    if is_object fields
    then sealed (required_of (get properties fields)) walked
    else some (dict walked)

abbrev pub with_item : Option Json → Option Items → Option Items
with_item (some item) (some items) = some (cons item items)
with_item _ _ = none

abbrev pub with_field : Text → Option Json → Option Fields → Option Fields
with_field k (some value) (some fields) = some (field k value fields)
with_field k _ _ = none

abbrev pub as_list : Option Items → Option Json
as_list none = none
as_list (some items) = some (list items)

-- `none` is the exception of `list`.
unfoldable mutual
  pub walk : Json → Option Json
  walk null = some null
  walk (bool b) = some (bool b)
  walk (number literal) = some (number literal)
  walk (text s) = some (text s)
  walk (list items) = as_list (walk_items items)
  walk (dict fields) = closed fields (walk_fields fields)

  pub walk_items : Items → Option Items
  walk_items nil = some nil
  walk_items (cons item items) = with_item (walk item) (walk_items items)

  pub walk_fields : Fields → Option Fields
  walk_fields end = some end
  walk_fields (field k value fields) = with_field k (walk value) (walk_fields fields)

unfoldable pub strict_schema : Json → Option Json
strict_schema schema = walk schema
