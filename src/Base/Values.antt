-- ===== src/Base/Values.antt =====
-- The dynamic values that a request or a response carries: JSON values. `int` is a Python integer,
-- `dec m k` the number m / 10 ^ k that a float's literal writes.
use Prim.Native.Nat.{ℕ, zero}
use mathlib.Core.Path.{◌≡◌, refl}
use mathlib.Core.Bool.{Bool, true, false}
use mathlib.Core.List.{List, [], ◌∷◌}
use quick_api.Base.Strings.{Text, codes}
use quick_api.Base.Dicts.{Dict}

-- `negsuc n` is -(n + 1).
pub data ℤ : Type 0 where
  pos : ℕ → ℤ
  negsuc : ℕ → ℤ

mutual
  pub data Fields : Type 0 where
    no_field : Fields
    field : Text → Value → Fields → Fields

  pub data Items : Type 0 where
    no_item : Items
    item : Value → Items → Items

  pub data Value : Type 0 where
    null : Value
    str : Text → Value
    bool : Bool → Value
    int : ℤ → Value
    dec : ℤ → ℕ → Value
    obj : Fields → Value
    arr : Items → Value

abbrev pub to_items : List Value → Items
to_items [] = no_item
to_items (v ∷ vs) = item v (to_items vs)

abbrev pub to_fields : Dict Value → Fields
to_fields [] = no_field
to_fields ((k, v) ∷ d) = field k v (to_fields d)

abbrev pub to_list : Items → List Value
to_list no_item = []
to_list (item v vs) = v ∷ to_list vs

abbrev pub to_dict : Fields → Dict Value
to_dict no_field = []
to_dict (field k v fs) = (k, v) ∷ to_dict fs

unfoldable pub arr_of : List Value → Value
arr_of vs = arr (to_items vs)

unfoldable pub obj_of : Dict Value → Value
obj_of d = obj (to_fields d)

pub to_dict-to_fields : (d : Dict Value) → to_dict (to_fields d) ≡ d
to_dict-to_fields [] = refl
to_dict-to_fields ((k, v) ∷ d) = λ i. (k, v) ∷ to_dict-to_fields d i

-- Python's truth value of a value: null, false, zero and empty values are false.
unfoldable pub truthy : Value → Bool
truthy null = false
truthy (bool b) = b
truthy (int (pos zero)) = false
truthy (int z) = true
truthy (dec (pos zero) k) = false
truthy (dec z k) = true
truthy (str []) = false
truthy (str (c ∷ s)) = true
truthy (arr no_item) = false
truthy (arr (item v vs)) = true
truthy (obj no_field) = false
truthy (obj (field k v fs)) = true

-- The name of the class of a value
unfoldable pub class_name : Value → Text
class_name null = codes "NoneType"
class_name (bool b) = codes "bool"
class_name (int z) = codes "int"
class_name (dec z k) = codes "float"
class_name (str t) = codes "str"
class_name (obj fields) = codes "dict"
class_name (arr items) = codes "list"
