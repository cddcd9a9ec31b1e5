-- ===== src/Stores/Health.antt =====
-- What the health of the registered databases reports.
use quick_api.Base.{
  Text, Dict, get, put, get-put, IsDistinct, put-IsDistinct, Value, Option, none, some, [], ◌∷◌,
  ◌≡◌, refl, ◌∙◌, ◌==◌, text_eq, if◌then◌else◌, str_iff, arith,
}
use quick_api.Stores.{Adapter, adapter_report, register_adapter, health_from, health}

abbrev reported : Option Adapter → Option Value
reported none = none
reported (some adapter) = some (adapter_report adapter)

abbrev first_of : Option Value → Option Value → Option Value
first_of none b = b
first_of (some v) b = some v

first_of-none : (a : Option Value) → first_of a none ≡ a
first_of-none none = refl
first_of-none (some v) = refl

get-health_from :
    (adapters : Dict Adapter) (result : Dict Value) (name : Text)
    → IsDistinct adapters
    → get (health_from result adapters) name
      ≡ first_of (reported (get adapters name)) (get result name)
unfolding health_from get
get-health_from [] result name d = refl
get-health_from ((n, a) ∷ adapters) result name (fresh, d) =
    get-health_from adapters (put result n (adapter_report a)) name d
    ∙ ground (arith, get-put result n name (adapter_report a), str_iff n name, fresh)

-- The health of databases whose names differ reports each registered database once, with what its
-- adapter says or, when that raises, with the error; it never raises itself, and no adapter
-- hides another's report.
get-health :
    (adapters : Dict Adapter) (name : Text)
    → IsDistinct adapters
    → get (health adapters) name ≡ reported (get adapters name)
unfolding health get
get-health adapters name d =
    get-health_from adapters [] name d ∙ first_of-none (reported (get adapters name))

-- After a database is registered, the health reports it under its name, in place of one that was
-- registered under the same name, and every other database as before.
health-register_adapter :
    (adapters : Dict Adapter) (name other : Text) (adapter : Adapter)
    → IsDistinct adapters
    → get (health (register_adapter adapters name adapter)) other
      ≡ (if name == other then some (adapter_report adapter) else get (health adapters) other)
unfolding register_adapter
health-register_adapter adapters name other adapter d =
    get-health (put adapters name adapter) other (put-IsDistinct adapters name adapter d)
    ∙ ground (arith, get-put adapters name other adapter, get-health adapters other d)
