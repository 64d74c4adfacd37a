-- ===== src/Tests/Provider.antt =====
-- A schema with a schema in its definitions, and a provider that answers at its second call.
use news2reel.Base.{ℕ, suc, ◌≡◌, refl, none, some, [], ◌∷◌, Text, codes, text_eq}
use news2reel.Llm.Schema.{
  Json, text, dict, Fields, end, field, get, is_object, properties, strict_schema,
}
use news2reel.Llm.Strict.{IsSchema, IsStrict}
use news2reel.Llm.Bare.{bare, strict_schema_lem}
use news2reel.Llm.Provider.{Sdk, failed, answered, Call, Loaded, valid}

abbrev verdict_schema : Fields
verdict_schema = field (codes "type") (text (codes "object")) (
    field properties
      (dict (field (codes "index") (dict end) (field (codes "category") (dict end) end))) end)

abbrev batch_schema : Json
batch_schema = dict (
    field (codes "$defs") (dict (field (codes "TitleClassification") (dict verdict_schema) end)) (
      field (codes "type") (text (codes "object"))
        (field properties (dict (field (codes "results") (dict end) end)) end)))

any_value : IsSchema (dict end)
unfolding get is_object
any_value = (λ e. cc, tt)

verdict_schema-IsSchema : IsSchema (dict verdict_schema)
unfolding get is_object text_eq
verdict_schema-IsSchema = (λ _. refl, (tt, ((λ e. cc, (any_value, (any_value, tt))), tt)))

batch_schema-IsSchema : IsSchema batch_schema
unfolding get is_object text_eq
batch_schema-IsSchema =
    (λ _. refl, ((λ e. cc, (verdict_schema-IsSchema, tt)), (tt, ((λ e. cc, (any_value, tt)), tt))))

strict_schema_lem_example :
    (strict : Json) × (strict_schema batch_schema ≡ some strict)
    × IsStrict strict
    × (bare strict ≡ bare batch_schema)
strict_schema_lem_example = strict_schema_lem batch_schema batch_schema-IsSchema

abbrev create : ℕ → Call → Sdk
create (suc (suc n)) call = answered (record {
  output = none ∷ some (none ∷ some (codes "{") ∷ []) ∷ some (some (codes "}") ∷ []) ∷ [];
  input_tokens = 900;
  output_tokens = 7;
})
create n call = failed (codes "timeout")

abbrev loads : Text → Loaded ℕ
loads s = valid []

abbrev no_time : ℕ → ℕ
no_time n = 0

abbrev one_digit : ℕ → Text
one_digit n = codes "1"
