-- ===== src/Ml/Shapes.antt =====
-- `MLGuard._shape`, `_walk_shape` and `_type_name` of quickapi/ml/guard.py: the measures of a body.
use quick_api.Base.{
  ℕ, suc, zero, ◌+◌, Text, codes, Value, Items, Fields, null, bool, int, dec, str, arr, obj,
  if◌then◌else◌, length, ltb,
}
use quick_api.Base.Values.{no_item, item, no_field, field}

pub record GuardLimits : Type 0 where
  pub max_body_size : ℕ
  pub max_string_length : ℕ
  pub max_array_length : ℕ
  pub max_object_keys : ℕ

-- `_type_name`; a class of Python is no JSON value
unfoldable pub type_name : Value → Text
unfolding codes
type_name null = codes "null"
type_name (bool b) = codes "boolean"
type_name (str s) = codes "string"
type_name (int n) = codes "integer"
type_name (dec m k) = codes "number"
type_name (obj fs) = codes "object"
type_name (arr vs) = codes "array"

-- The counters of `_shape`.
pub record ShapeStats : Type 0 where
  pub max_depth : ℕ
  pub object_count : ℕ
  pub array_count : ℕ
  pub string_count : ℕ
  pub number_count : ℕ
  pub boolean_count : ℕ
  pub null_count : ℕ
  pub max_string_length : ℕ
  pub total_keys : ℕ

abbrev pub no_stats : ShapeStats
no_stats = record {
  max_depth = 0;
  object_count = 0;
  array_count = 0;
  string_count = 0;
  number_count = 0;
  boolean_count = 0;
  null_count = 0;
  max_string_length = 0;
  total_keys = 0;
}

abbrev pub larger : ℕ → ℕ → ℕ
larger a b = if ltb a b then b else a

abbrev deeper : ShapeStats → ℕ → ShapeStats
deeper s depth = record s { max_depth = larger s.max_depth depth }

abbrev width : Fields → ℕ
width no_field = 0
width (field k v fs) = suc (width fs)

module _ (lim : GuardLimits) where
  unfoldable mutual
    -- `_walk_shape`
    pub walk_shape : Value → ℕ → ShapeStats → ShapeStats
    walk_shape null depth s = let t = deeper s depth in record t { null_count = t.null_count + 1 }
    walk_shape (bool b) depth s =
        let t = deeper s depth in record t { boolean_count = t.boolean_count + 1 }
    walk_shape (int n) depth s =
        let t = deeper s depth in record t { number_count = t.number_count + 1 }
    walk_shape (dec m k) depth s =
        let t = deeper s depth in record t { number_count = t.number_count + 1 }
    walk_shape (str x) depth s =
        let t = deeper s depth in
        record t {
          string_count = t.string_count + 1;
          max_string_length = larger t.max_string_length (length x);
        }
    walk_shape (arr vs) depth s =
        let t = deeper s depth in
        walk_items vs (suc lim.max_array_length) (suc depth)
          (record t { array_count = t.array_count + 1 })
    walk_shape (obj fs) depth s =
        let t = deeper s depth in
        walk_fields fs (suc lim.max_object_keys) (suc depth)
          (record t { object_count = t.object_count + 1; total_keys = t.total_keys + width fs })

    pub walk_items : Items → ℕ → ℕ → ShapeStats → ShapeStats
    walk_items no_item budget depth s = s
    walk_items (item v vs) zero depth s = s
    walk_items (item v vs) (suc budget) depth s = walk_items vs budget depth (walk_shape v depth s)

    pub walk_fields : Fields → ℕ → ℕ → ShapeStats → ShapeStats
    walk_fields no_field budget depth s = s
    walk_fields (field k v fs) zero depth s = s
    walk_fields (field k v fs) (suc budget) depth s =
        walk_fields fs budget depth (walk_shape v depth s)
