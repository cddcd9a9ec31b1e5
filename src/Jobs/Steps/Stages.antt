-- ===== src/Jobs/Steps/Stages.antt =====
-- How many permits the jobs hold, and how many jobs are counted, by their stages.
use quick_api.Base.{
  ℕ, ◌+◌, Text, Dict, get, put, Option, none, some, [], ◌∷◌, ◌≡◌, refl, sym, ◌==◌, text_eq, arith,
  Bool-cases, inl, inr,
}
use quick_api.Jobs.{
  Stage, holding, entered, withdrawn, rejected, pending, taken, active, closing, leaving, finished,
  dropped, crashed, drop_pending, drop_all,
}

-- A job holds its permit from the semaphore's acquire to its release.
abbrev pub held : Stage → ℕ
held finished = 0
held rejected = 0
held _ = 1

-- A job is counted from one locked block to another.
abbrev pub counted : Stage → ℕ
counted holding = 0
counted withdrawn = 0
counted rejected = 0
counted leaving = 0
counted finished = 0
counted _ = 1

-- The futures that are cancelled.
abbrev pub lost : Stage → ℕ
lost dropped = 1
lost _ = 0

unfoldable pub total : (Stage → ℕ) → Dict Stage → ℕ
total w [] = 0
total w ((id, f) ∷ fs) = w f + total w fs

pub total-put_new :
    (w : Stage → ℕ) (fs : Dict Stage) (id : Text) (f : Stage)
    → get fs id ≡ none
    → total w (put fs id f) ≡ total w fs + w f
unfolding total get put
total-put_new w [] id f e = omega arith
total-put_new w ((j, g) ∷ fs) id f e = ground (arith, total-put_new w fs id f)

pub total-put :
    (w : Stage → ℕ) (fs : Dict Stage) (id : Text) (f g : Stage)
    → get fs id ≡ some g
    → total w (put fs id f) + w g ≡ total w fs + w f
unfolding total get put
total-put w [] id f g e = cc
total-put w ((j, h) ∷ fs) id f g e = ground (arith, total-put w fs id f g)

-- A shutdown changes no total in which a pending future counts as a cancelled one does.
pub total-drop_all :
    (w : Stage → ℕ) (fs : Dict Stage) → w pending ≡ w dropped → total w (drop_all fs) ≡ total w fs
unfolding total drop_all
total-drop_all w [] e = refl
total-drop_all w ((j, f) ∷ fs) e = omega (arith, drop_pending-weight w f e, total-drop_all w fs e)
  where
    drop_pending-weight :
        (w : Stage → ℕ) (f : Stage) → w pending ≡ w dropped → w (drop_pending f) ≡ w f
    drop_pending-weight w pending e = sym e
    drop_pending-weight w holding e = refl
    drop_pending-weight w entered e = refl
    drop_pending-weight w withdrawn e = refl
    drop_pending-weight w rejected e = refl
    drop_pending-weight w taken e = refl
    drop_pending-weight w active e = refl
    drop_pending-weight w closing e = refl
    drop_pending-weight w leaving e = refl
    drop_pending-weight w finished e = refl
    drop_pending-weight w dropped e = refl
    drop_pending-weight w crashed e = refl

abbrev pub drop_option : Option Stage → Option Stage
drop_option none = none
drop_option (some f) = some (drop_pending f)

pub get-drop_all : (fs : Dict Stage) (id : Text) → get (drop_all fs) id ≡ drop_option (get fs id)
unfolding get drop_all
get-drop_all [] id = refl
get-drop_all ((j, f) ∷ fs) id = elim (Bool-cases (j == id)) [
  | inl e ↦ rw e refl
  | inr e ↦ rw e (get-drop_all fs id)
]
