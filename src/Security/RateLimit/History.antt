-- ===== src/Security/RateLimit/History.antt =====
-- The limiter forgets what has left the window; it decides as if it forgot nothing.
use mathlib.Core.Path.{ap₂}
use quick_api.Base.{
  ℕ, ◌≤◌, Text, Dict, put, get-put, Bool, true, false, List, [], ◌∷◌, ◌++◌, ◌≡◌, refl, sym, ap, ◌∙◌,
  ◌==◌, text_eq, if◌then◌else◌, keep, keep-append, length, ltb, leb, arith, Bool-cases, inl, inr,
  str_iff,
}
use quick_api.Security.RateLimit.{Preset, recent, bucket, allow}

-- The specification: every accepted time is remembered, and a call is accepted while fewer than
-- `limit` remembered times of its key lie in the window.
unfoldable pub allow_remembering : Preset → Dict (List ℕ) → ℕ → Text → Bool × Dict (List ℕ)
allow_remembering p history now key =
    if ltb (length (keep (recent p.window now) (bucket history key))) p.limit
    then (true, put history key (bucket history key ++ now ∷ []))
    else (false, history)

-- The verdicts on a sequence of calls, each a time and a key.
unfoldable pub run :
    (Dict (List ℕ) → ℕ → Text → Bool × Dict (List ℕ)) → Dict (List ℕ) → List (ℕ × Text) → List Bool
run step s [] = []
run step s ((now, key) ∷ calls) = let (verdict, s') = step s now key in verdict ∷ run step s' calls

-- The clock does not run backwards.
abbrev pub IsOrdered : ℕ → List (ℕ × Text) → Type 0
IsOrdered t [] = Unit
IsOrdered t ((now, key) ∷ calls) = (t ≤ now) × IsOrdered now calls

-- From `now` on the two states have the same times in the window, for every key.
pub record Agrees (p : Preset) (now : ℕ) (buckets history : Dict (List ℕ)) : Type 0 where
  pub same :
      (key : Text)
      → keep (recent p.window now) (bucket buckets key)
        ≡ keep (recent p.window now) (bucket history key)

keep-keep-recent :
    (w t now : ℕ) (xs : List ℕ)
    → t ≤ now
    → keep (recent w now) (keep (recent w t) xs) ≡ keep (recent w now) xs
unfolding keep recent
keep-keep-recent w t now [] h = refl
keep-keep-recent w t now (x ∷ xs) h = ground (arith, keep-keep-recent w t now xs h)

Agrees-later :
    {p : Preset} {t : ℕ} {b h : Dict (List ℕ)} (now : ℕ)
    → t ≤ now
    → Agrees p t b h
    → Agrees p now b h
Agrees-later {p} {t} {b} {h} now l a = record {
  same = λ key.
      sym (keep-keep-recent p.window t now (bucket b key) l)
      ∙ ap (keep (recent p.window now)) (a.same key)
      ∙ keep-keep-recent p.window t now (bucket h key) l;
}

bucket-put :
    (d : Dict (List ℕ)) (key j : Text) (stamps : List ℕ)
    → bucket (put d key stamps) j ≡ (if key == j then stamps else bucket d j)
bucket-put d key j stamps = rw get-put (ground arith)

module _ (p : Preset) (b h : Dict (List ℕ)) (now : ℕ) (key : Text) (a : Agrees p now b h) where
  verdict_same : (allow p b now key).0 ≡ (allow_remembering p h now key).0
  unfolding allow allow_remembering
  verdict_same = ground (arith, a.same key)

  abbrev pruned : List ℕ
  pruned = keep (recent p.window now) (bucket b key)

  keep-pruned : keep (recent p.window now) pruned ≡ keep (recent p.window now) (bucket h key)
  keep-pruned = keep-keep-recent p.window now now (bucket b key) (omega arith) ∙ a.same key

  refused_same :
      (j : Text)
      → keep (recent p.window now) (bucket (put b key pruned) j)
        ≡ keep (recent p.window now) (bucket h j)
  refused_same j = elim (Bool-cases (key == j)) [
    | inl e ↦
        let same : key ≡ j = (str_iff key j).0 e in
        rw (bucket-put, e) (keep-pruned ∙ ap (λ k. keep (recent p.window now) (bucket h k)) same)
    | inr e ↦ rw (bucket-put, e) (a.same j)
  ]

  accepted_same :
      (j : Text)
      → keep (recent p.window now) (bucket (put b key (pruned ++ now ∷ [])) j)
        ≡ keep (recent p.window now) (bucket (put h key (bucket h key ++ now ∷ [])) j)
  accepted_same j = elim (Bool-cases (key == j)) [
    | inl e ↦
        rw
          (
            bucket-put b key j (pruned ++ now ∷ []),
            bucket-put h key j (bucket h key ++ now ∷ []),
            e,
          )
          (keep-append (recent p.window now) pruned (now ∷ [])
            ∙ ap (λ u. u ++ keep (recent p.window now) (now ∷ [])) keep-pruned
            ∙ sym (keep-append (recent p.window now) (bucket h key) (now ∷ [])))
    | inr e ↦
        rw
          (
            bucket-put b key j (pruned ++ now ∷ []),
            bucket-put h key j (bucket h key ++ now ∷ []),
            e,
          )
          (a.same j)
  ]

  Agrees-step : Agrees p now (allow p b now key).1 (allow_remembering p h now key).1
  unfolding allow allow_remembering
  Agrees-step = elim (Bool-cases (leb p.limit (length pruned))) [
    | inl full ↦
        let other : ltb (length (keep (recent p.window now) (bucket h key))) p.limit ≡ false =
          ground (arith, a.same key, full) in
        record { same = λ j. rw (full, other, allow, allow_remembering) (refused_same j) }
    | inr room ↦
        let other : ltb (length (keep (recent p.window now) (bucket h key))) p.limit ≡ true =
          ground (arith, a.same key, room) in
        record { same = λ j. rw (room, other, allow, allow_remembering) (accepted_same j) }
  ]

run_same :
    (p : Preset) (b h : Dict (List ℕ)) (t : ℕ) (calls : List (ℕ × Text))
    → Agrees p t b h
    → IsOrdered t calls
    → run (allow p) b calls ≡ run (allow_remembering p) h calls
unfolding run
run_same p b h t [] a o = refl
run_same p b h t ((now, key) ∷ calls) a (l, o) =
    let a' = Agrees-later now l a in
    ap₂ ◌∷◌ (verdict_same p b h now key a') (
      run_same p (allow p b now key).1 (allow_remembering p h now key).1 now calls
        (Agrees-step p b h now key a') o)

-- On every sequence of calls whose times do not decrease, the limiter, which prunes its buckets,
-- gives the verdicts of the one that remembers every accepted time: a call is accepted exactly
-- when fewer than `limit` accepted calls of its key lie in the window that ends at its time.
pub run-allow :
    (p : Preset) (calls : List (ℕ × Text))
    → IsOrdered 0 calls
    → run (allow p) [] calls ≡ run (allow_remembering p) [] calls
run-allow p calls o = run_same p [] [] 0 calls (record { same = λ key. refl }) o
