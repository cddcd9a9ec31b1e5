-- ===== src/Plugins/Listing.antt =====
-- `list` and `describe` of quickapi/plugins/manager.py, and the dicts of manifests and results.
use quick_api.Base.{
  Text, codes, Dict, get, keys, values, Value, null, bool, str, int, pos, arr_of, Option, none,
  some, List, [], ◌∷◌, ◌++◌, map, text_eq, if◌then◌else◌, or_else, keep, mem, sorted_set, text_ltb,
}
use quick_api.Plugins.{PluginManifest, PluginResult, PluginManager, missing_permissions}

unfoldable pub manifest_dict : PluginManifest → Dict Value
unfolding codes sorted_set
manifest_dict p =
    (codes "name", str p.name)
    ∷ (codes "version", str p.version)
    ∷ (codes "description", str p.description)
    ∷ (codes "permissions", arr_of (map str (sorted_set p.permissions)))
    ∷ (codes "entrypoint", or_else (text_value p.entrypoint) null)
    ∷ (codes "tags", arr_of (map str p.tags))
    ∷ []
  where
    text_value : Option Text → Option Value
    text_value none = none
    text_value (some t) = some (str t)

unfoldable pub result_dict : PluginResult → Dict Value
unfolding codes
result_dict r =
    (codes "ok", bool r.accepted)
    ∷ (codes "plugin", str r.plugin)
    ∷ (codes "action", str r.action)
    ∷ (codes "data", r.output)
    ∷ (codes "error", or_else r.error null)
    ∷ (codes "duration_ms", int (pos r.duration_ms))
    ∷ []

-- The entries that `list` and `describe` add to a manifest.
unfoldable pub permission_entries : PluginManager → PluginManifest → Dict Value
unfolding sorted_set keep missing_permissions codes
permission_entries m p =
    (
      codes "granted",
      arr_of (map str (sorted_set (keep (λ t. mem t m.granted_permissions) p.permissions))),
    )
    ∷ (codes "missing_permissions", arr_of (map str (missing_permissions m p)))
    ∷ []

-- The stable sort by name.
unfoldable pub insert_by_name : PluginManifest → List PluginManifest → List PluginManifest
unfolding text_ltb
insert_by_name p [] = p ∷ []
insert_by_name p (q ∷ qs) =
    let later = q ∷ insert_by_name p qs in if text_ltb q.name p.name then later else p ∷ q ∷ qs

unfoldable pub sort_by_name : List PluginManifest → List PluginManifest
unfolding insert_by_name
sort_by_name [] = []
sort_by_name (p ∷ ps) = insert_by_name p (sort_by_name ps)

unfoldable pub list_plugins : PluginManager → List (Dict Value)
unfolding sort_by_name values manifest_dict permission_entries
list_plugins m =
    map (λ p. manifest_dict p ++ permission_entries m p) (sort_by_name (values m.manifests))

unfoldable pub describe : PluginManager → Text → Option (Dict Value)
unfolding get manifest_dict permission_entries sorted_set keys codes
describe m name = elim (get m.manifests name) [
  | none ↦ none
  | some p ↦ some (
      manifest_dict p
      ++ (codes "actions", arr_of (map str (sorted_set (keys (or_else (get m.handlers name) [])))))
        ∷ permission_entries m p)
]
