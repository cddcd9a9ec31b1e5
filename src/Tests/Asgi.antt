-- ===== src/Tests/Asgi.antt =====
-- The ASGI adapter at concrete inputs.
use quick_api.Base.{
  ℕ, ◌+◌, null, none, codes, true, false, List, [], ◌∷◌, ◌≡◌, refl, ok, raise, pos, Text, Dict,
  Raised,
}
use quick_api.Asgi.{
  Message, part, disconnect, unknown, complete, too_large, read_body, send_response, lifespan,
  startup, shutdown, startup_failed, shutdown_complete,
}
use quick_api.Asgi.Body.{judged, is_ended, parts_of, read_body-judged}
use quick_api.Asgi.Call.{Adapter, Scope, parsed, call}
use quick_api.Asgi.Limit.{call-large}
use quick_api.App.Finalize.{answered}
use quick_api.Response.{json}

-- A body in two parts, with a message of another type between them.
abbrev two_parts : List Message
two_parts = part (1 ∷ 2 ∷ []) true ∷ unknown ∷ part (3 ∷ []) false ∷ []

read_body-judged_example :
    read_body 3 two_parts ≡ judged 3 (is_ended two_parts) (parts_of two_parts)
read_body-judged_example = read_body-judged 3 two_parts

whole : read_body 3 two_parts ≡ complete (1 ∷ 2 ∷ 3 ∷ [])
unfolding read_body
whole = refl

above : read_body 2 two_parts ≡ too_large
unfolding read_body
above = refl

-- The part that came before the connection ended is taken as the body.
cut : read_body 3 (part (1 ∷ 2 ∷ []) true ∷ disconnect ∷ []) ≡ complete (1 ∷ 2 ∷ [])
unfolding read_body
cut = refl

abbrev cannot : Text → Raised
cannot t = record { kind = codes "UnicodeEncodeError"; message = codes "ordinal not in range(256)" }

-- A header beyond latin1, as the name of a download may be.
abbrev wide : Dict Text
wide = (codes "X", 8364 ∷ []) ∷ []

refused : send_response cannot 2 (pos 200) wide (1 ∷ []) ≡ raise (cannot (8364 ∷ []))
unfolding send_response codes
refused = refl

abbrev typed : Dict Text
typed = (codes "Content-Type", codes "text/plain") ∷ []

-- A start that fails is said to have failed, and the stop is run all the same.
life :
    lifespan {W = ℕ}
      ((λ n. (raise (record { kind = codes "OSError"; message = codes "no" }), n)) ∷ [])
      ((λ n. (ok tt, 7)) ∷ [])
      (startup ∷ shutdown ∷ [])
      0
    ≡ (startup_failed (codes "no") ∷ shutdown_complete ∷ [], 7)
unfolding lifespan
life = refl

-- An adapter whose application counts its calls.
abbrev adapter : Adapter ℕ
adapter = record {
  max_body_size = 2;
  cors = [];
  parse_json = λ bytes. parsed null;
  parse_qs = λ t. [];
  handle = λ asked calls.
      (ok (answered (record { body = json null; status = pos 200; headers = [] })), calls + 1);
  bytes_of = λ f. [];
  chunk_size = λ f. 2;
  cannot = cannot;
}

abbrev scope : Scope
scope = record { method = none; path = none; query_string = []; headers = []; client = none }

call-large_example : (call adapter (codes "req_1") scope two_parts 0).1 ≡ 0
call-large_example = call-large adapter (codes "req_1") scope two_parts 0 refl
