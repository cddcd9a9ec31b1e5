-- ===== src/Asgi/Limit.antt =====
-- What the limit of a body keeps away from the application.
use quick_api.Base.{Text, true, List, length, ltb, ◌≡◌, refl, ap}
use quick_api.Asgi.{Message}
use quick_api.Asgi.Body.{parts_of, is_ended, judged, read_body-judged}
use quick_api.Asgi.Call.{Adapter, Scope, call, answer_read}

module _ {W : Type 0} (a : Adapter W) (new_id : Text) where
  call-judged :
      (scope : Scope) (ms : List Message) (w : W)
      → call a new_id scope ms w
        ≡ answer_read a new_id scope (judged a.max_body_size (is_ended ms) (parts_of ms)) w
  unfolding call
  call-judged scope ms w =
      ap (λ r. answer_read a new_id scope r w) (read_body-judged a.max_body_size ms)

  -- A request whose parts are above the limit does not reach the application: the world stays as it
  -- is, whether the body has ended or not.
  pub call-large :
      (scope : Scope) (ms : List Message) (w : W)
      → ltb a.max_body_size (length (parts_of ms)) ≡ true
      → (call a new_id scope ms w).1 ≡ w
  unfolding answer_read
  call-large scope ms w large = rw (call-judged scope ms w, large) refl
