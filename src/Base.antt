-- ===== src/Base.antt =====
-- The names that the other modules share: the libraries', passed on, and those of the children.
mod Tests
mod Lists
pub mod Strings
pub mod Dicts
pub mod Values
pub mod Results
pub mod Order
pub use Tests.*
pub use Lists.*
unfoldable pub use Lists.{keep}
unfoldable pub use Strings.{
  codes, str_beq, lower, upper, starts_with, contains, lstrip, strip, split, join,
}
unfoldable pub use Dicts.{get, has, put, set_default, pop, keys, values}
pub use Strings.{Text, text_or, text_eq, str_iff, text_discrete, upper_idem}
pub use Dicts.{
  IsDistinct, put-IsDistinct, pop-IsDistinct, Dict, get-put, get-own, get-pop, dict_laws,
}
unfoldable pub use Values.{obj_of, arr_of, truthy, class_name}
pub use Values.{ℤ, pos, negsuc, Value, Items, Fields, null, bool, int, dec, str, arr, obj, to_dict}
unfoldable pub use Order.{text_ltb, insert_sorted, sorted_set}
pub use Order.{mem}
pub use Results.{Result-cases, ok_eq, Raised, Result, ok, raise, ◌>>=◌}
pub use Prim.Native.Nat.{ℕ, zero, suc, ◌+◌, ◌-◌, ◌*◌, ◌/◌, ◌%◌, ◌≤◌, ◌<◌}
pub use Prim.Native.String.{String}
pub use mathlib.Core.Path.{◌≡◌, refl, sym, ap, ◌∙◌}
pub use mathlib.Core.Logic.{◌≢◌, ◌↔◌, ◌⊎◌, inl, inr}
pub use mathlib.Core.Bool.{Bool, true, false, not, ◌&&◌, ◌||◌}
pub use mathlib.Core.Option.{Option, none, some}
pub use mathlib.Core.List.{List, [], ◌∷◌, ◌++◌, map}
pub use native.Mathlib.Omega.{arith}
