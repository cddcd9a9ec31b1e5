-- ===== src/Ml/Dedupe/Worst.antt =====
-- What the reported signals keep of the signals that were found.
use quick_api.Base.{
  Text, Bool, true, false, not, ◌&&◌, ◌||◌, Option, none, some, List, [], ◌∷◌, ◌≡◌, ◌↔◌, refl, sym,
  ap, ◌∙◌, any, All, arith, str_iff, str_beq, Bool-cases, inl, inr,
}
use quick_api.Ml.Floats.{Floats, IsOrdered}
use quick_api.Ml.Signals.{GuardSignal}
use quick_api.Ml.Dedupe.{
  same_key, same_place, merge_signal, merge_all, insert_by_score, sort_by_score, dedupe_signals,
}

same_place_iff : (a b : Option Text) → (same_place a b ≡ true) ↔ (a ≡ b)
same_place_iff none none = (λ e. refl, λ e. refl)
same_place_iff none (some b) = (λ e. absurd (cc e), λ e. absurd (cc e))
same_place_iff (some a) none = (λ e. absurd (cc e), λ e. absurd (cc e))
same_place_iff (some a) (some b) =
    (λ e. ap some ((str_iff a b).0 e), λ e. ground (arith, e, str_iff a b))

iff_eq : (a b : Bool) → (a ≡ true → b ≡ true) → (b ≡ true → a ≡ true) → a ≡ b
iff_eq a b f g = ground (arith, f, g)

module _ {F : Type 0} ⦃n : Floats F⦄ where
  same_key_iff :
      (s t : GuardSignal F)
      → (same_key s t ≡ true) ↔ ((s.code ≡ t.code) × (s.location ≡ t.location))
  unfolding same_key
  same_key_iff s t = ground (arith, str_iff s.code t.code, same_place_iff s.location t.location)

  same_key_refl : (s : GuardSignal F) → same_key s s ≡ true
  same_key_refl s = (same_key_iff s s).1 (refl, refl)

  same_key_cong : (s t u : GuardSignal F) → same_key s t ≡ true → same_key s u ≡ same_key t u
  unfolding same_key
  same_key_cong s t u e =
      let (code, place) = (same_key_iff s t).0 e in
      λ i. str_beq (code i) u.code && same_place (place i) u.location

  same_key_sym : (s t : GuardSignal F) → same_key s t ≡ same_key t s
  same_key_sym s t = iff_eq (same_key s t) (same_key t s) (swapped s t) (swapped t s)
    where
      swapped : (a b : GuardSignal F) → same_key a b ≡ true → same_key b a ≡ true
      swapped a b e = sym (same_key_cong a b a e) ∙ same_key_refl a

  -- A signal of the list has the key of `s` and a score that is not below.
  abbrev pub covers : List (GuardSignal F) → GuardSignal F → Bool
  covers ts s = any (λ t. same_key t s && not (n.lt t.score s.score)) ts

  covers-merge_signal :
      IsOrdered n
      → (ts : List (GuardSignal F)) (s : GuardSignal F) → covers (merge_signal ts s) s ≡ true
  unfolding merge_signal
  covers-merge_signal laws [] s = ground (arith, same_key_refl s, laws.lt_irrefl s.score)
  covers-merge_signal laws (t ∷ ts) s =
      ground (arith, same_key_refl s, laws.lt_irrefl s.score, covers-merge_signal laws ts s)

  merge_signal-covers :
      IsOrdered n
      → (ts : List (GuardSignal F)) (s u : GuardSignal F) → covers ts u ≡ true
      → covers (merge_signal ts s) u ≡ true
  unfolding merge_signal
  merge_signal-covers laws [] s u h = absurd (cc h)
  merge_signal-covers laws (t ∷ ts) s u h = ground (
    arith,
    h,
    same_key_cong t s u,
    laws.lt_trans t.score s.score u.score,
    merge_signal-covers laws ts s u,
  )

  merge_all-keeps :
      IsOrdered n
      → (kept ss : List (GuardSignal F)) (u : GuardSignal F) → covers kept u ≡ true
      → covers (merge_all kept ss) u ≡ true
  unfolding merge_all
  merge_all-keeps laws kept [] u h = h
  merge_all-keeps laws kept (s ∷ ss) u h =
      merge_all-keeps laws (merge_signal kept s) ss u (merge_signal-covers laws kept s u h)

  covers-merge_all :
      IsOrdered n
      → (kept ss : List (GuardSignal F)) → All (λ s. covers (merge_all kept ss) s ≡ true) ss
  unfolding merge_all
  covers-merge_all laws kept [] = tt
  covers-merge_all laws kept (s ∷ ss) = (
    merge_all-keeps laws (merge_signal kept s) ss s (covers-merge_signal laws kept s),
    covers-merge_all laws (merge_signal kept s) ss,
  )

  any-insert_by_score :
      (p : GuardSignal F → Bool) (s : GuardSignal F) (ts : List (GuardSignal F))
      → any p (insert_by_score s ts) ≡ p s || any p ts
  unfolding insert_by_score
  any-insert_by_score p s [] = refl
  any-insert_by_score p s (t ∷ ts) = ground (arith, any-insert_by_score p s ts)

  any-sort_by_score :
      (p : GuardSignal F → Bool) (ts : List (GuardSignal F)) → any p (sort_by_score ts) ≡ any p ts
  unfolding sort_by_score
  any-sort_by_score p [] = refl
  any-sort_by_score p (t ∷ ts) =
      ground (arith, any-insert_by_score p t (sort_by_score ts), any-sort_by_score p ts)

  -- No two signals of the list have the same code and place.
  abbrev pub IsDistinct : List (GuardSignal F) → Type 0
  IsDistinct [] = Unit
  IsDistinct (t ∷ ts) = (any (same_key t) ts ≡ false) × IsDistinct ts

  any_key_cong :
      (s t : GuardSignal F) (ts : List (GuardSignal F))
      → same_key s t ≡ true
      → any (same_key s) ts ≡ any (same_key t) ts
  any_key_cong s t [] e = refl
  any_key_cong s t (u ∷ ts) e = ground (arith, same_key_cong s t u e, any_key_cong s t ts e)

  any_key-merge_signal :
      (t s : GuardSignal F) (ts : List (GuardSignal F))
      → any (same_key t) ts ≡ false
      → same_key t s ≡ false
      → any (same_key t) (merge_signal ts s) ≡ false
  unfolding merge_signal
  any_key-merge_signal t s [] h k = ground (arith, k)
  any_key-merge_signal t s (u ∷ ts) h k = ground (arith, h, k, any_key-merge_signal t s ts)

  merge_signal-IsDistinct :
      (ts : List (GuardSignal F)) (s : GuardSignal F)
      → IsDistinct ts
      → IsDistinct (merge_signal ts s)
  unfolding merge_signal
  merge_signal-IsDistinct [] s d = (refl, tt)
  merge_signal-IsDistinct (t ∷ ts) s (out, d) = elim (Bool-cases (same_key t s)) [
    | inl same ↦ elim (Bool-cases (n.lt t.score s.score)) [
      | inl worse ↦ rw (same, worse, merge_signal) (sym (any_key_cong t s ts same) ∙ out, d)
      | inr kept ↦ rw (same, kept, merge_signal) (out, d)
    ]
    | inr other ↦
        rw (other, merge_signal)
          (any_key-merge_signal t s ts out other, merge_signal-IsDistinct ts s d)
  ]

  merge_all-IsDistinct :
      (kept ss : List (GuardSignal F)) → IsDistinct kept → IsDistinct (merge_all kept ss)
  unfolding merge_all
  merge_all-IsDistinct kept [] d = d
  merge_all-IsDistinct kept (s ∷ ss) d =
      merge_all-IsDistinct (merge_signal kept s) ss (merge_signal-IsDistinct kept s d)

  insert_by_score-IsDistinct :
      (s : GuardSignal F) (ts : List (GuardSignal F))
      → any (same_key s) ts ≡ false
      → IsDistinct ts
      → IsDistinct (insert_by_score s ts)
  unfolding insert_by_score
  insert_by_score-IsDistinct s [] out d = (out, tt)
  insert_by_score-IsDistinct s (t ∷ ts) out (fresh, d) = elim (Bool-cases (n.lt s.score t.score)) [
    | inr first ↦ rw (first, insert_by_score) (out, (fresh, d))
    | inl behind ↦
        rw (behind, insert_by_score)
          (
            any-insert_by_score (same_key t) s ts ∙ ground (arith, out, fresh, same_key_sym t s),
            insert_by_score-IsDistinct s ts (ground (arith, out)) d,
          )
  ]

  sort_by_score-IsDistinct :
      (ts : List (GuardSignal F)) → IsDistinct ts → IsDistinct (sort_by_score ts)
  unfolding sort_by_score
  sort_by_score-IsDistinct [] d = tt
  sort_by_score-IsDistinct (t ∷ ts) (out, d) =
      insert_by_score-IsDistinct t (sort_by_score ts) (any-sort_by_score (same_key t) ts ∙ out)
        (sort_by_score-IsDistinct ts d)

  any-of_All :
      (ss us : List (GuardSignal F)) (p : List (GuardSignal F) → GuardSignal F → Bool)
      → ((u : GuardSignal F) → p ss u ≡ p us u)
      → (ts : List (GuardSignal F)) → All (λ s. p us s ≡ true) ts
      → All (λ s. p ss s ≡ true) ts
  any-of_All ss us p same [] h = tt
  any-of_All ss us p same (t ∷ ts) (h, k) = (same t ∙ h, any-of_All ss us p same ts k)

  -- The signals of a report are free of repetition: no two have the same code and place. And they
  -- hide nothing: for each signal that was found, one with its code and place and a score that is
  -- not below is reported. The order of floats is irreflexive and transitive.
  pub dedupe_signals-IsDistinct :
      IsOrdered n
      → (signals : List (GuardSignal F))
      → IsDistinct (dedupe_signals signals)
        × All (λ s. covers (dedupe_signals signals) s ≡ true) signals
  unfolding dedupe_signals
  dedupe_signals-IsDistinct laws signals = (
    sort_by_score-IsDistinct (merge_all [] signals) (merge_all-IsDistinct [] signals tt),
    any-of_All (sort_by_score (merge_all [] signals)) (merge_all [] signals) covers
        (λ u.
          any-sort_by_score (λ t. same_key t u && not (n.lt t.score u.score))
            (merge_all [] signals))
        signals (covers-merge_all laws [] signals),
  )
