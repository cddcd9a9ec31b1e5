-- ===== src/Schema/Normalize.antt =====
-- `_normalize_schema` and `_normalize_field_rule` of quickapi/schema/validator.py, on schemas that are
-- JSON values.
pub mod Required
use quick_api.Base.{
  class_name, ℕ, Text, codes, Dict, Value, Fields, Items, null, str, bool, int, dec, obj, arr,
  obj_of, to_dict, truthy, get, has, pop, put, set_default, Bool, true, false, not, ◌&&◌, ◌||◌,
  Option, none, some, or_else, List, [], ◌∷◌, ◌++◌, map, if◌then◌else◌, any, mem, ◌==◌, text_eq,
  str_beq, Raised, Result, ok, raise, ◌>>=◌,
}
use quick_api.Base.Values.{no_field, field, no_item, item, arr_of}

-- The keys that tell a JSON schema from a table of fields.
abbrev pub schema_keys : List Text
schema_keys = map codes (
    "$schema" ∷ "$id" ∷ "$defs" ∷ "definitions" ∷ "$ref" ∷ "type" ∷ "properties"
    ∷ "patternProperties" ∷ "additionalProperties" ∷ "unevaluatedProperties" ∷ "items"
    ∷ "prefixItems" ∷ "required" ∷ "oneOf" ∷ "anyOf" ∷ "allOf" ∷ "not" ∷ "enum" ∷ "const" ∷ "format"
    ∷ "pattern" ∷ "minimum" ∷ "maximum" ∷ "exclusiveMinimum" ∷ "exclusiveMaximum" ∷ "multipleOf"
    ∷ "minLength" ∷ "maxLength" ∷ "minItems" ∷ "maxItems" ∷ "minProperties" ∷ "maxProperties"
    ∷ "dependentRequired" ∷ "dependencies" ∷ "contains" ∷ "minContains" ∷ "maxContains" ∷ "nullable"
    ∷ "uniqueItems" ∷ "propertyNames" ∷ "additional_properties" ∷ "pattern_properties" ∷ "one_of"
    ∷ "any_of" ∷ "all_of" ∷ "min_length" ∷ "max_length" ∷ "min_items" ∷ "max_items"
    ∷ "min_properties" ∷ "max_properties" ∷ "dependent_required" ∷ "prefix_items" ∷ "unique_items"
    ∷ "property_names" ∷ [])

-- The keys whose values are tables of schemas, taken as empty when they are false.
abbrev table_keys : List Text
table_keys = codes "properties" ∷ codes "patternProperties" ∷ codes "pattern_properties" ∷ []

-- The keys whose value is a schema, when it is a dict.
abbrev schema_valued_keys : List Text
schema_valued_keys = map codes (
    "items" ∷ "contains" ∷ "not" ∷ "propertyNames" ∷ "property_names" ∷ "additionalProperties"
    ∷ "additional_properties" ∷ "unevaluatedProperties" ∷ "unevaluated_properties" ∷ [])

-- The keys whose value is a list of schemas, when it is a list.
abbrev list_keys : List Text
list_keys = map codes (
    "prefixItems" ∷ "prefix_items" ∷ "oneOf" ∷ "one_of" ∷ "anyOf" ∷ "any_of" ∷ "allOf" ∷ "all_of"
    ∷ [])

-- The keys whose value is a table of definitions, when it is a dict.
abbrev definition_keys : List Text
definition_keys = codes "$defs" ∷ codes "definitions" ∷ []

abbrev pub is_schema : Fields → Bool
is_schema no_field = false
is_schema (field k v fs) = mem k schema_keys || is_schema fs

abbrev object_type : Dict Value
object_type = (codes "type", str (codes "object")) ∷ []

abbrev array_type : Dict Value → Dict Value
array_type rule = (codes "type", str (codes "array")) ∷ (codes "items", obj_of rule) ∷ []

abbrev no_items_method : Value → Raised
no_items_method v = record {
  kind = codes "AttributeError";
  message = codes "'" ++ (class_name v ++ codes "' object has no attribute 'items'");
}

-- A table of fields after its loop: the fields that are required, and the rules of all.
pub record Table : Type 0 where
  pub required : List Text
  pub rules : Dict Value

abbrev first_rule : Dict Value → Dict Value → Dict Value
first_rule normalized rule =
    set_default normalized (codes "required") (or_else (get rule (codes "required")) (bool true))

-- A field of a table, by its normalized rule: `pop` takes its mark away.
unfoldable pub add_field : Text → Dict Value → Table → Table
unfolding pop get truthy codes
add_field name rule t = record {
  required =
      if truthy (or_else (get rule (codes "required")) (bool true))
      then name ∷ t.required
      else t.required;
  rules = (name, obj_of (pop rule (codes "required"))) ∷ t.rules;
}

unfoldable pub table_schema : Table → Dict Value
unfolding codes
table_schema t =
    (codes "type", str (codes "object"))
    ∷ (codes "required", arr_of (map str t.required))
    ∷ (codes "properties", obj_of t.rules)
    ∷ []

-- A dict is a JSON schema or a table of fields.
abbrev choose : Bool → Result (Dict Value) → Result Table → Result (Dict Value)
choose true schema table = schema
choose false schema (raise e) = raise e
choose false schema (ok t) = ok (table_schema t)

-- A table that is no dict is empty when it is false, and else has no items.
unfoldable pub table_of : Value → Result Value
unfolding truthy class_name codes
table_of v = if truthy v then raise (no_items_method v) else ok (obj_of [])

unfoldable mutual
  unfolding table_of table_schema add_field set_default get truthy class_name codes str_beq

  -- `_normalize_schema`
  pub normalize : Value → Result (Dict Value)
  normalize (arr no_item) = ok (array_type object_type)
  normalize (arr (item v vs)) = normalize v >>= (λ rule. ok (array_type rule))
  normalize (obj fields) =
      choose (is_schema fields) (normalize_keys fields) (normalize_table fields)
  normalize null = ok object_type
  normalize (str t) = ok object_type
  normalize (bool b) = ok object_type
  normalize (int z) = ok object_type
  normalize (dec z k) = ok object_type

  -- the entries of a JSON schema
  pub normalize_keys : Fields → Result (Dict Value)
  normalize_keys no_field = ok []
  normalize_keys (field k v fs) =
      normalize_entry k v >>= (λ w. normalize_keys fs >>= (λ rest. ok ((k, w) ∷ rest)))

  pub normalize_entry : Text → Value → Result Value
  normalize_entry k (obj fields) =
      let table = normalize_values fields >>= (λ rules. ok (obj_of rules)) in
      let schema =
        choose (is_schema fields) (normalize_keys fields) (normalize_table fields)
        >>= (λ rule. ok (obj_of rule)) in
      if mem k table_keys || mem k definition_keys
      then table
      else if mem k schema_valued_keys
      then schema
      else ok (obj fields)
  normalize_entry k (arr items) =
      let rules = normalize_items items >>= (λ vs. ok (arr_of vs)) in
      if mem k list_keys
      then rules
      else if mem k table_keys
      then table_of (arr items)
      else ok (arr items)
  normalize_entry k v = if mem k table_keys then table_of v else ok v

  -- the schemas of a table
  pub normalize_values : Fields → Result (Dict Value)
  normalize_values no_field = ok []
  normalize_values (field k v fs) =
      normalize v >>= (λ rule. normalize_values fs >>= (λ rest. ok ((k, obj_of rule) ∷ rest)))

  -- the schemas of a list
  pub normalize_items : Items → Result (List Value)
  normalize_items no_item = ok []
  normalize_items (item v vs) =
      normalize v >>= (λ rule. normalize_items vs >>= (λ rest. ok (obj_of rule ∷ rest)))

  -- the loop over a table of fields
  pub normalize_table : Fields → Result Table
  normalize_table no_field = ok (record { required = []; rules = [] })
  normalize_table (field k v fs) =
      normalize_rule v >>= (λ rule. normalize_table fs >>= (λ rest. ok (add_field k rule rest)))

  -- `_normalize_field_rule`
  pub normalize_rule : Value → Result (Dict Value)
  normalize_rule (arr no_item) = ok (array_type object_type ++ (codes "required", bool true) ∷ [])
  normalize_rule (arr (item v vs)) =
      normalize v >>= (λ rule. ok (array_type rule ++ (codes "required", bool true) ∷ []))
  normalize_rule (obj fields) =
      choose (is_schema fields) (normalize_keys fields) (normalize_table fields)
      >>= (λ rule. ok (first_rule rule (to_dict fields)))
  normalize_rule null = ok (object_type ++ (codes "required", bool true) ∷ [])
  normalize_rule (str t) = ok (object_type ++ (codes "required", bool true) ∷ [])
  normalize_rule (bool b) = ok (object_type ++ (codes "required", bool true) ∷ [])
  normalize_rule (int z) = ok (object_type ++ (codes "required", bool true) ∷ [])
  normalize_rule (dec z k) = ok (object_type ++ (codes "required", bool true) ∷ [])
