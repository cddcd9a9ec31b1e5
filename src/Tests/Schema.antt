-- ===== src/Tests/Schema.antt =====
-- The limits on a body and the normal form of a schema at concrete inputs.
use quick_api.Schema.Normalize.{normalize}
use quick_api.Schema.Normalize.Required.{AreUnmarked, normalize-AreUnmarked}
use quick_api.Base.Values.{field, no_field, item, no_item}
use quick_api.Base.{
  pop, get, obj, arr, Dict, Fields, some, ok, str_beq, Text, codes, Value, str, null, arr_of,
  obj_of, [], ◌∷◌, ◌≡◌, ◌↔◌, refl, map,
}
use quick_api.Schema.Issue.{ValidationIssue, shown_number}
use quick_api.Schema.Shape.{ShapeLimits, validate_shape, validate_runtime_shape}
use quick_api.Schema.Shape.Limits.{IsShaped, validate_runtime_shape-nil_iff}

abbrev small : ShapeLimits
small = record { max_depth = 1; max_string_length = 3; max_array_length = 2; max_object_keys = 2 }

abbrev same : Text → Text
same t = t

abbrev fine : Value
fine = obj_of ((codes "a", str (codes "abc")) ∷ (codes "b", arr_of []) ∷ [])

-- An array that is too long, whose third item is looked at, and a value that lies too deep.
abbrev wrong : Value
wrong = arr_of (null ∷ arr_of (null ∷ []) ∷ str (codes "long") ∷ str (codes "longer") ∷ [])

shape_tests :
    (validate_shape same small fine (codes "body") 0 ≡ [])
    × (map (λ (i : ValidationIssue). i.location) (validate_shape same small wrong (codes "body") 0)
        ≡ codes "body" ∷ codes "body[1][0]" ∷ codes "body[2]" ∷ [])
unfolding validate_shape codes arr_of obj_of
shape_tests = (refl, refl)

number_test : shown_number 1024 ≡ codes "1024"
unfolding shown_number codes
number_test = refl

validate_runtime_shape-nil_iff_example :
    (validate_runtime_shape same small fine (codes "body") ≡ []) ↔ IsShaped small fine 0
validate_runtime_shape-nil_iff_example =
    validate_runtime_shape-nil_iff same small fine (codes "body")

-- A table with one field, whose rule is a JSON schema that requires a field of its own.
abbrev nested : Fields
nested =
    field (codes "user")
      (obj (
        field (codes "type") (str (codes "object"))
          (field (codes "required") (arr (item (str (codes "name")) no_item)) no_field)))
      no_field

abbrev nested_normal : Dict Value
nested_normal =
    (codes "type", str (codes "object"))
    ∷ (codes "required", arr (item (str (codes "user")) no_item))
    ∷ (
      codes "properties",
      obj (
          field (codes "user") (obj (field (codes "type") (str (codes "object")) no_field))
            no_field),
    )
    ∷ []

-- The normal form requires the user and no longer the name of the user.
nested_loses : normalize (obj nested) ≡ ok nested_normal
unfolding normalize obj_of arr_of codes str_beq pop
nested_loses = refl

normalize-AreUnmarked_example :
    (rules : Dict Value) × (get nested_normal (codes "properties") ≡ some (obj_of rules))
    × AreUnmarked rules
unfolding codes str_beq
normalize-AreUnmarked_example = normalize-AreUnmarked nested nested_normal refl nested_loses
