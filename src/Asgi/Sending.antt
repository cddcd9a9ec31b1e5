-- ===== src/Asgi/Sending.antt =====
-- What a client receives of a response that is sent.
use quick_api.Base.{
  ℕ, ◌<◌, lower, map, All, ◌⊎◌, Result, ok, raise, Text, Dict, true, false, Option, none, some,
  List, [], ◌∷◌, ◌++◌, ◌≡◌, if◌then◌else◌, ℤ,
}
use quick_api.Asgi.{Sent, head, body, is_204}

abbrev before : List ℕ → Option (List ℕ) → Option (List ℕ)
before bytes none = none
before bytes (some rest) = some (bytes ++ rest)

-- The bytes of a body whose only last message says that none follows.
abbrev pub gathered : List Sent → Option (List ℕ)
gathered [] = none
gathered (head status headers ∷ ss) = none
gathered (body bytes true ∷ ss) = before bytes (gathered ss)
gathered (body bytes false ∷ []) = some bytes
gathered (body bytes false ∷ s ∷ ss) = none

abbrev headed : ℤ → Dict Text → Option (List ℕ) → Option (ℤ × (Dict Text × List ℕ))
headed status headers none = none
headed status headers (some bytes) = some (status, (headers, bytes))

-- What a client reads: a head first, and then a body.
abbrev pub received : List Sent → Option (ℤ × (Dict Text × List ℕ))
received [] = none
received (head status headers ∷ ss) = headed status headers (gathered ss)
received (body bytes more ∷ ss) = none

-- What a client reads of a response that was sent, and nothing when sending raised.
abbrev pub got : Result (List Sent) → Option (ℤ × (Dict Text × List ℕ))
got (raise e) = none
got (ok sent) = received sent

-- A text of latin1.
abbrev pub IsLatin : Text → Type 0
IsLatin t = All (λ c. c < 256) t

-- Every header, its name in lower case, is of latin1.
abbrev pub AreLatin : Dict Text → Type 0
AreLatin headers = All (λ h. IsLatin (lower h.0) × IsLatin h.1) headers

-- The response arrives whole when its headers are of latin1, and otherwise not at all.
abbrev pub Delivery : Result (List Sent) → ℤ → Dict Text → List ℕ → Type 0
Delivery r status headers payload =
    (AreLatin headers
      × (got r
          ≡ some (
            status,
            (map (λ h. (lower h.0, h.1)) headers, if is_204 status then [] else payload),
          )))
    ⊎ ((¬ AreLatin headers) × (got r ≡ none))
