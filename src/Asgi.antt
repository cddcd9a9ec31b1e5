-- ===== src/Asgi.antt =====
-- `QuickASGIApp` of quickapi/asgi.py and `Lifecycle` of quickapi/app/lifecycle.py. The messages that the
-- server sends are a list; a reading that has used it up is waiting. What is sent is a list too.
pub mod Body
pub mod Call
pub mod Limit
pub mod Sending
use quick_api.Base.{
  ℕ, ◌+◌, Text, codes, lower, Dict, Bool, true, false, Option, none, some, List, [], ◌∷◌, ◌++◌, all,
  ◌>>=◌, if◌then◌else◌, length, ltb, Raised, Result, ok, raise, ℤ, pos, negsuc, nat_beq,
}
use quick_api.Response.Chunks.{iter_bytes}

-- A message of a request: a part of its body and whether more follows, the end of the connection, or
-- one of another type.
pub data Message : Type 0 where
  part : (body : List ℕ) → (more : Bool) → Message
  disconnect : Message
  unknown : Message

-- What reading a body comes to: it waits for a message, the body is too large, or it is there.
pub data Reading : Type 0 where
  waiting : Reading
  too_large : Reading
  complete : List ℕ → Reading

-- the loop of `_read_body`, by the chunks so far, joined
unfoldable pub read_from : ℕ → List ℕ → ℕ → List Message → Reading
read_from max_bytes chunks total [] = waiting
read_from max_bytes chunks total (disconnect ∷ ms) = complete chunks
read_from max_bytes chunks total (unknown ∷ ms) = read_from max_bytes chunks total ms
read_from max_bytes chunks total (part body more ∷ ms) =
    let rest = read_from max_bytes (chunks ++ body) (total + length body) ms in
    if ltb max_bytes (total + length body)
    then too_large
    else if more
    then rest
    else complete (chunks ++ body)

-- `_read_body`
unfoldable pub read_body : ℕ → List Message → Reading
unfolding read_from
read_body max_bytes ms = read_from max_bytes [] 0 ms

-- What is sent to the server.
pub data Sent : Type 0 where
  head : (status : ℤ) → (headers : Dict Text) → Sent
  body : (bytes : List ℕ) → (more : Bool) → Sent

abbrev pub is_204 : ℤ → Bool
is_204 (pos n) = nat_beq n 204
is_204 (negsuc n) = false

-- the chunks of a response, and the empty message that ends it
unfoldable pub send_chunks : List (List ℕ) → List Sent
send_chunks [] = body [] false ∷ []
send_chunks (c ∷ cs) = body c true ∷ send_chunks cs

-- `encode("latin1")`, which fits below 256 only; `cannot` is what it raises for a text
unfoldable pub latin1 : (Text → Raised) → Text → Result Text
latin1 cannot t = if all (λ c. ltb c 256) t then ok t else raise (cannot t)

-- the list of the encoded headers
unfoldable pub encode_headers : (Text → Raised) → Dict Text → Result (Dict Text)
unfolding latin1 lower
encode_headers cannot [] = ok []
encode_headers cannot ((key, text) ∷ headers) = latin1 cannot (lower key) >>= (λ k.
    latin1 cannot text >>= (λ v. encode_headers cannot headers >>= (λ rest. ok ((k, v) ∷ rest))))

-- `_send_response`, for the bytes of a response, which are sent in chunks; nothing is sent when a
-- header cannot be encoded
unfoldable pub send_response : (Text → Raised) → ℕ → ℤ → Dict Text → List ℕ → Result (List Sent)
unfolding send_chunks iter_bytes encode_headers
send_response cannot chunk_size status headers payload =
    encode_headers cannot headers >>= (λ encoded. ok (
      head status encoded
      ∷ (if is_204 status
          then body [] false ∷ []
          else send_chunks (iter_bytes chunk_size payload))))

-- What the server says about the life of the process.
pub data LifeMessage : Type 0 where
  startup shutdown other : LifeMessage

pub data LifeSent : Type 0 where
  startup_complete shutdown_complete : LifeSent
  startup_failed shutdown_failed : Text → LifeSent

-- `Lifecycle.startup` and `Lifecycle.shutdown`: the handlers in their order, up to one that raises
unfoldable pub run_handlers :
    {W : Type 0} → List (W → Result {0} Unit × W) → W → Result {0} Unit × W
run_handlers [] w = (ok tt, w)
run_handlers (h ∷ hs) w =
    let (r, w') = h w in
    let rest = run_handlers hs w' in elim r [ raise e ↦ (raise e, w') | ok u ↦ rest ]

abbrev outcome_of : {W : Type 0} → LifeSent → (Text → LifeSent) → Result {0} Unit × W → LifeSent × W
outcome_of done failed (ok u, w) = (done, w)
outcome_of done failed (raise e, w) = (failed e.message, w)

-- `_lifespan`, which ends with the first message of a shutdown
unfoldable pub lifespan :
    {W : Type 0}
    → List (W → Result {0} Unit × W)
    → List (W → Result {0} Unit × W)
    → List LifeMessage
    → W
    → List LifeSent × W
unfolding run_handlers
lifespan starts stops [] w = ([], w)
lifespan starts stops (other ∷ ms) w = lifespan starts stops ms w
lifespan starts stops (shutdown ∷ ms) w =
    let (sent, w') = outcome_of shutdown_complete shutdown_failed (run_handlers stops w) in
    (sent ∷ [], w')
lifespan starts stops (startup ∷ ms) w =
    let (sent, w') = outcome_of startup_complete startup_failed (run_handlers starts w) in
    let (later, w'') = lifespan starts stops ms w' in (sent ∷ later, w'')
