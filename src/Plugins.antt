-- ===== src/Plugins.antt =====
-- `PluginManager` of quickapi/plugins/manager.py. A set of permissions is a list that is asked for
-- membership. `imported` is what `load` finds at an entry point; a handler's effects outside the
-- manager are not kept, and `duration` is what the clock gives.
pub mod Permissions
pub mod Listing
use quick_api.Base.{
  ℕ, ◌-◌, Text, codes, split, Dict, get, put, set_default, keys, values, Value, null, bool, str,
  int, pos, obj_of, arr_of, Bool, true, false, not, ◌&&◌, Option, none, some, List, [], ◌∷◌, ◌++◌,
  map, ◌==◌, text_eq, if◌then◌else◌, or_else, starts_with, text_or, keep, mem, sorted_set, text_ltb,
  Raised, Result, ok, raise,
}

pub record PluginManifest : Type 0 where
  pub name : Text
  pub version : Text
  pub description : Text
  pub permissions : List Text
  pub entrypoint : Option Text
  pub tags : List Text

-- A handler by its signature, the names and whether it takes any keyword, and what it does.
pub record Handler : Type 0 where
  pub parameters : List Text
  pub takes_any : Bool
  pub run : Dict Value → Result Value

-- `output` is the field `data`, `accepted` the field `ok`.
pub record PluginResult : Type 0 where
  pub accepted : Bool
  pub plugin : Text
  pub action : Text
  pub output : Value
  pub error : Option Value
  pub duration_ms : ℕ

pub record PluginManager : Type 0 where
  pub manifests : Dict PluginManifest
  pub handlers : Dict (Dict Handler)
  pub granted_permissions : List Text

unfoldable pub grant : PluginManager → List Text → PluginManager
grant m permissions = record m { granted_permissions = m.granted_permissions ++ permissions }

-- The texts of the first list that the second lacks.
abbrev pub minus : List Text → List Text → List Text
minus a b = keep (λ p. not (mem p b)) a

unfoldable pub revoke : PluginManager → List Text → PluginManager
unfolding keep
revoke m permissions = record m { granted_permissions = minus m.granted_permissions permissions }

abbrev pub blank : Text → PluginManifest
blank name = record {
  name = name;
  version = codes "0.1.0";
  description = [];
  permissions = [];
  entrypoint = none;
  tags = [];
}

abbrev first_full {ℓ} : {A : Type ℓ} → List A → List A → List A
first_full [] b = b
first_full (x ∷ a) b = x ∷ a

-- The manifest that `register` leaves; `tags=None` is the empty list.
unfoldable pub described :
    PluginManifest → Option (List Text) → Text → Text → List Text → PluginManifest
described manifest permissions version description tags = record manifest {
  version = version;
  description = first_full description manifest.description;
  permissions = or_else permissions manifest.permissions;
  tags = first_full tags manifest.tags;
}

-- `self._handlers.setdefault(name, {})[action] = handler`
unfoldable pub set_action : Dict (Dict Handler) → Text → Text → Handler → Dict (Dict Handler)
unfolding get put
set_action handlers name action handler =
    put handlers name (put (or_else (get handlers name) []) action handler)

abbrev with_action : Dict (Dict Handler) → Text → Text → Option Handler → Dict (Dict Handler)
with_action handlers name action none = handlers
with_action handlers name action (some handler) = set_action handlers name action handler

unfoldable pub register :
    PluginManager
    → Text
    → Option Handler
    → Text
    → Option (List Text)
    → Text
    → Text
    → List Text
    → PluginManager
unfolding get put described set_action
register m name handler action permissions version description tags = record m {
  manifests = put m.manifests name (
      described (or_else (get m.manifests name) (blank name)) permissions version description tags);
  handlers = with_action m.handlers name action handler;
}

-- What an entry point's object has: the attributes that a manifest reads, its attributes that can
-- be called, in the order of `dir`, and the object itself where it can be called.
pub record Imported : Type 0 where
  pub name : Option Text
  pub version : Option Text
  pub description : Option Text
  pub permissions : List Text
  pub tags : List Text
  pub callables : List (Text × Handler)
  pub itself : Option Handler

abbrev last_of : List Text → Text → Text
last_of [] d = d
last_of (t ∷ ts) d = last_of ts t

-- the loop of `load` over the attributes
unfoldable pub add_actions :
    Dict (Dict Handler) → Text → List (Text × Handler) → Dict (Dict Handler)
unfolding set_action starts_with
add_actions handlers name [] = handlers
add_actions handlers name ((action, handler) ∷ rest) =
    add_actions
      (if starts_with action (codes "_") then handlers else set_action handlers name action handler)
      name rest

abbrev head_of : List Text → Text
head_of [] = []
head_of (t ∷ ts) = t

unfoldable pub loaded_manifest : Imported → Text → Option Text → PluginManifest
unfolding split codes
loaded_manifest imported entrypoint name = record {
  name =
      text_or name
        (or_else imported.name (last_of (split b'.' (head_of (split b':' entrypoint))) []));
  version = or_else imported.version (codes "0.1.0");
  description = or_else imported.description [];
  permissions = imported.permissions;
  entrypoint = some entrypoint;
  tags = imported.tags;
}

-- `load`, once the object was imported; an error of the import leaves the manager as it is.
unfoldable pub load : PluginManager → Result Imported → Text → Option Text → Result PluginManager
unfolding loaded_manifest add_actions set_action put
load m (raise e) entrypoint name = raise e
load m (ok imported) entrypoint name =
    let manifest = loaded_manifest imported entrypoint name in
    ok (record m {
      manifests = put m.manifests manifest.name manifest;
      handlers =
          with_action (add_actions m.handlers manifest.name imported.callables) manifest.name
            (codes "run") imported.itself;
    })

abbrev refusal : Text → Text → Dict Value → PluginResult
refusal name action error = record {
  accepted = false;
  plugin = name;
  action = action;
  output = null;
  error = some (obj_of error);
  duration_ms = 0;
}

unfoldable pub not_found : Text → Text → PluginResult
unfolding codes
not_found name action = refusal name action (
    (codes "code", str (codes "PLUGIN_NOT_FOUND"))
    ∷ (codes "message", str (name ++ codes " is not registered."))
    ∷ [])

unfoldable pub denied : Text → Text → List Text → PluginResult
unfolding codes
denied name action missing = refusal name action (
    (codes "code", str (codes "PLUGIN_PERMISSION_DENIED"))
    ∷ (codes "message", str (codes "Plugin requires permissions that were not granted by the app."))
    ∷ (codes "missing_permissions", arr_of (map str missing))
    ∷ (
      codes "hint",
      str (codes "Pass QuickAPI(..., plugin_permissions={...}) or call app.plugins.grant(...)."),
    )
    ∷ [])

unfoldable pub no_action : Text → Text → PluginResult
unfolding codes
no_action name action = refusal name action (
    (codes "code", str (codes "PLUGIN_ACTION_NOT_FOUND"))
    ∷ (codes "message", str (name ++ codes "." ++ action ++ codes " is not registered."))
    ∷ [])

-- The keyword arguments that the handler is given.
unfoldable pub accepted_by : Handler → Dict Value → Dict Value
unfolding keep
accepted_by handler kwargs =
    if handler.takes_any then kwargs else keep (λ e. mem e.0 handler.parameters) kwargs

-- What a call of the handler gives; an exception is caught.
unfoldable pub outcome : Text → Text → ℕ → Result Value → PluginResult
unfolding codes
outcome name action duration (ok v) = record {
  accepted = true;
  plugin = name;
  action = action;
  output = v;
  error = none;
  duration_ms = duration;
}
outcome name action duration (raise e) = record {
  accepted = false;
  plugin = name;
  action = action;
  output = null;
  error = some (obj_of ((codes "type", str e.kind) ∷ (codes "message", str e.message) ∷ []));
  duration_ms = duration;
}

unfoldable pub missing_permissions : PluginManager → PluginManifest → List Text
unfolding sorted_set keep
missing_permissions m manifest = sorted_set (minus manifest.permissions m.granted_permissions)

abbrev pub action_of : PluginManager → Text → Text → Option Handler
action_of m name action = get (or_else (get m.handlers name) []) action

-- `call`, behind the permissions
unfoldable pub call_granted : PluginManager → Text → Text → Dict Value → ℕ → PluginResult
unfolding get no_action outcome accepted_by
call_granted m name action kwargs duration = elim (action_of m name action) [
  | none ↦ no_action name action
  | some handler ↦ outcome name action duration (handler.run (accepted_by handler kwargs))
]

unfoldable pub call : PluginManager → Text → Text → Dict Value → ℕ → PluginResult
unfolding get not_found denied missing_permissions call_granted
call m name action kwargs duration = elim (get m.manifests name) [
  | none ↦ not_found name action
  | some manifest ↦ elim (missing_permissions m manifest) [
    | [] ↦ call_granted m name action kwargs duration
    | p ∷ ps ↦ denied name action (p ∷ ps)
  ]
]
