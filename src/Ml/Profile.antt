-- ===== src/Ml/Profile.antt =====
-- `MLGuard._profile` of quickapi/ml/guard.py. `shown` is Python's `str` of a
-- body, `encode` and `decode` turn a text into bytes and back and skip what does not fit, and
-- `fingerprint` is the hash that is taken of a request.
use quick_api.Base.{
  ℕ, Text, codes, Dict, keys, Value, truthy, Option, none, some, List, [], ◌∷◌, if◌then◌else◌,
  or_else, take, length, sorted_set,
}
use quick_api.Http.{Request}
use quick_api.Http.Header.{get_header}
use quick_api.Routing.Route.{Route}
use quick_api.Ml.Intent.{infer_intent, route_sensitivity}
use quick_api.Ml.Shapes.{GuardLimits, ShapeStats, no_stats, type_name, walk_shape}

pub record Codecs : Type 0 where
  pub shown : Value → Text
  pub encode : Text → List ℕ
  pub decode : List ℕ → Text

-- `request.raw_body or str(request.body or "").encode(...)`
unfoldable pub raw_of : Codecs → Request → List ℕ
unfolding truthy
raw_of c req = elim (req.raw_body) [
  | [] ↦ c.encode (if truthy req.body then c.shown req.body else [])
  | b ∷ bs ↦ b ∷ bs
]

pub record RequestProfile : Type 0 where
  pub method : Text
  pub path : Text
  pub intent : Text
  pub route_name : Option Text
  pub route_sensitivity : ℕ
  pub body_bytes : ℕ
  pub query_count : ℕ
  pub header_count : ℕ
  pub content_type : Text
  pub user_agent : Text
  pub fingerprint : Text
  -- the entries of `shape`
  pub body_type : Text
  pub path_params : List Text
  pub stats : ShapeStats

abbrev name_of : Option Route → Option Text
name_of none = none
name_of (some r) = some r.name

-- `_profile`
unfoldable pub profile_of :
    Codecs
    → (Request → List ℕ → Text)
    → GuardLimits
    → Request
    → Option Route
    → Dict Text
    → RequestProfile
unfolding raw_of infer_intent route_sensitivity type_name walk_shape get_header codes sorted_set
    keys
profile_of c fingerprint lim req route path_params =
    let raw = raw_of c req in
    record {
      method = req.method;
      path = req.path;
      intent = infer_intent req.path req.method (c.decode (take 4096 raw));
      route_name = name_of route;
      route_sensitivity = route_sensitivity req.path req.method route;
      body_bytes = length raw;
      query_count = length req.query;
      header_count = length req.headers;
      content_type = or_else (get_header req.headers (codes "Content-Type")) [];
      user_agent = or_else (get_header req.headers (codes "User-Agent")) [];
      fingerprint = fingerprint req (take 4096 raw);
      body_type = type_name req.body;
      path_params = sorted_set (keys path_params);
      stats = walk_shape lim req.body 0 no_stats;
    }
