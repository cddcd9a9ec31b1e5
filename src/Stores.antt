-- ===== src/Stores.antt =====
-- The registries behind a name: `MemoryCache` of quickapi/cache/memory.py, `SessionStore` of
-- quickapi/storage/session.py and `DatabaseRegistry` of quickapi/db/adapters.py. An adapter is what
-- its `health` returns or raises.
pub mod Health
use quick_api.Base.{
  Text, codes, Dict, get, put, pop, keys, Value, bool, str, obj_of, Option, none, some, List, [],
  ◌∷◌, false, or_else, sorted_set, Raised, Result, ok, raise,
}

abbrev pub MemoryCache : Type 0
MemoryCache = Dict Value

unfoldable pub cache_get : MemoryCache → Text → Value → Value
unfolding get
cache_get c key default = or_else (get c key) default

unfoldable pub cache_set : MemoryCache → Text → Value → MemoryCache
unfolding put
cache_set c key value = put c key value

unfoldable pub cache_delete : MemoryCache → Text → MemoryCache
unfolding pop
cache_delete c key = pop c key

abbrev pub SessionStore : Type 0
SessionStore = Dict Value

unfoldable pub session_get : SessionStore → Text → Option Value
unfolding get
session_get s session_id = get s session_id

unfoldable pub session_set : SessionStore → Text → Value → SessionStore
unfolding put
session_set s session_id value = put s session_id value

-- What `health` of an adapter does.
abbrev pub Adapter : Type 0
Adapter = Result Value

unfoldable pub register_adapter : Dict Adapter → Text → Adapter → Dict Adapter
unfolding put
register_adapter adapters name adapter = put adapters name adapter

-- The entry of an adapter; an exception is caught.
unfoldable pub adapter_report : Adapter → Value
unfolding codes
adapter_report (ok v) = v
adapter_report (raise e) =
    obj_of (
      (codes "ok", bool false) ∷ (codes "type", str e.kind) ∷ (codes "message", str e.message) ∷ [])

-- the loop of `health`
unfoldable pub health_from : Dict Value → Dict Adapter → Dict Value
unfolding put adapter_report
health_from result [] = result
health_from result ((name, adapter) ∷ adapters) =
    health_from (put result name (adapter_report adapter)) adapters

unfoldable pub health : Dict Adapter → Dict Value
unfolding health_from
health adapters = health_from [] adapters

unfoldable pub list_adapters : Dict Adapter → List Text
unfolding sorted_set keys
list_adapters adapters = sorted_set (keys adapters)
