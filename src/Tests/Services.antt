-- ===== src/Tests/Services.antt =====
-- Plugins and webhooks at concrete inputs.
use quick_api.Base.{
  ℕ, Text, codes, get, Value, null, str, true, false, none, some, List, [], ◌∷◌, ◌++◌, ◌≡◌, ◌≢◌,
  refl, mem, All, ok, Result, str_beq,
}
use quick_api.Plugins.{
  PluginManager, PluginManifest, Handler, revoke, register, call, denied, outcome, accepted_by,
  action_of,
}
use quick_api.Plugins.Permissions.{call-accepted, call-revoke, call-register}
use quick_api.Webhooks
use quick_api.Webhooks.{WebhookProcessor, WebhookResult, received, dispatch, handled}
use quick_api.Webhooks.Signed.{is_hex, dispatch-signed, dispatch-register}

abbrev bare : PluginManager
bare = record {
  manifests = [];
  handlers = [];
  granted_permissions = codes "network" ∷ codes "llm" ∷ [];
}

abbrev echo : Handler
echo = record {
  parameters = codes "text" ∷ [];
  takes_any = false;
  run = λ kwargs. ok (str (codes "done"));
}

abbrev fetcher : PluginManifest
fetcher = record {
  name = codes "fetch";
  version = codes "1";
  description = [];
  permissions = codes "network" ∷ [];
  entrypoint = none;
  tags = [];
}

abbrev with_fetch : PluginManager
with_fetch = record {
  manifests = (codes "fetch", fetcher) ∷ [];
  handlers = (codes "fetch", (codes "run", echo) ∷ []) ∷ [];
  granted_permissions = codes "network" ∷ codes "llm" ∷ [];
}

fetch_runs : (call with_fetch (codes "fetch") (codes "run") [] 5).accepted ≡ true
unfolding call str_beq
fetch_runs = refl

fetch_known : get with_fetch.manifests (codes "fetch") ≡ some fetcher
unfolding get codes str_beq
fetch_known = refl

call-accepted_example :
    ((manifest : PluginManifest) × (get with_fetch.manifests (codes "fetch") ≡ some manifest)
      × All (λ t. mem t with_fetch.granted_permissions ≡ true) manifest.permissions)
    × ((handler : Handler) × (action_of with_fetch (codes "fetch") (codes "run") ≡ some handler)
        × (handler.run (accepted_by handler [])
            ≡ ok (call with_fetch (codes "fetch") (codes "run") [] 5).output))
call-accepted_example = call-accepted with_fetch (codes "fetch") (codes "run") [] 5 fetch_runs

asked : mem (codes "network") (codes "network" ∷ []) ≡ true
unfolding codes str_beq
asked = refl

call-revoke_example :
    (missing : List Text) × (call
        (revoke with_fetch (codes "network" ∷ []))
        (codes "fetch")
        (codes "run")
        []
        5
      ≡ denied (codes "fetch") (codes "run") missing)
    × (mem (codes "network") missing ≡ true)
call-revoke_example =
    call-revoke with_fetch (codes "network" ∷ []) (codes "fetch") (codes "run") [] 5 fetcher
      (codes "network") asked fetch_known asked

network_granted : All (λ t. mem t bare.granted_permissions ≡ true) (codes "network" ∷ [])
unfolding codes str_beq
network_granted = (refl, tt)

call-register_example :
    call
      (register bare
        (codes "fetch")
        (some echo)
        (codes "run")
        (some (codes "network" ∷ []))
        (codes "1")
        []
        [])
      (codes "fetch")
      (codes "run")
      []
      5
    ≡ outcome (codes "fetch") (codes "run") 5 (echo.run (accepted_by echo []))
call-register_example =
    call-register bare (codes "fetch") (codes "run") echo (codes "network" ∷ []) (codes "1") [] []
      [] 5 network_granted

-- A digest that is hexadecimal.
abbrev toy_digest : Text → List ℕ → Text
toy_digest key bytes = b'a' ∷ b'1' ∷ []

abbrev greet : Value → Result Value
greet payload = ok (str (codes "hello"))

abbrev hooks : WebhookProcessor
hooks = record { handlers = (codes "paid", greet) ∷ []; secrets = (codes "paid", codes "key") ∷ [] }

abbrev greeted : WebhookResult
greeted = record {
  accepted = true;
  event = codes "paid";
  output = str (codes "hello");
  error = none;
}

secret_known : get hooks.secrets (codes "paid") ≡ some (b'k' ∷ codes "ey")
unfolding get codes str_beq
secret_known = refl

paid_runs : dispatch toy_digest hooks (codes "paid") null [] (some (codes "sha256=a1")) ≡ ok greeted
unfolding dispatch codes str_beq
paid_runs = refl

unsigned_refused : dispatch toy_digest hooks (codes "paid") null [] (some (codes "a2")) ≢ ok greeted
unfolding dispatch codes str_beq
unsigned_refused e = cc e

dispatch-signed_example :
    (received (some (codes "sha256=a1")) ≡ toy_digest (b'k' ∷ codes "ey") [])
    × ((handler : Webhooks.Handler) × (get hooks.handlers (codes "paid") ≡ some handler)
        × (handler null ≡ ok greeted.output))
dispatch-signed_example =
    dispatch-signed toy_digest hooks (codes "paid") null [] (some (codes "sha256=a1")) b'k'
      (codes "ey") greeted secret_known paid_runs refl

toy_digest_hex : (key : Text) (bytes : List ℕ) → All (λ x. is_hex x ≡ true) (toy_digest key bytes)
toy_digest_hex key bytes = (refl, (refl, tt))

dispatch-register_example :
    dispatch toy_digest
      (Webhooks.register hooks (codes "left") greet (some (b'k' ∷ codes "ey")))
      (codes "left")
      null
      []
      (some (codes "sha256=" ++ toy_digest (b'k' ∷ codes "ey") []))
    ≡ ok (handled (codes "left") (greet null))
dispatch-register_example =
    dispatch-register toy_digest hooks (codes "left") greet null [] b'k' (codes "ey") toy_digest_hex
