-- ===== src/Jobs/Steps/Fits.antt =====
-- What the history holds of a job, by the stage of the job.
use mathlib.Core.Path.{subst}
use quick_api.Base.{
  ℕ, Text, Dict, get, put, get-put, IsDistinct, put-IsDistinct, Bool, true, false, ◌||◌, Option,
  none, some, [], ◌∷◌, ◌≡◌, refl, ◌==◌, text_eq, str_iff, arith, Bool-cases, Option-cases, inl, inr,
}
use quick_api.Jobs.{
  JobRecord, JobQueue, Status, queued, running, done, failed, cancelled, is_terminal, Stage,
  holding, entered, withdrawn, rejected, pending, taken, active, closing, leaving, finished,
  dropped, crashed, trim, drop_all, settled, Outcome, returned, raised,
}
use quick_api.Jobs.Trim.{IsNamed, put-IsNamed, trim-kept, trim-sub, trim-IsNamed, trim-IsDistinct}
use quick_api.Jobs.Steps.Stages.{get-drop_all, drop_option}

abbrev pub is_queued : Status → Bool
is_queued queued = true
is_queued _ = false

abbrev pub is_running : Status → Bool
is_running running = true
is_running _ = false

abbrev pub is_cancelled : Status → Bool
is_cancelled cancelled = true
is_cancelled _ = false

abbrev pub is_failed : Status → Bool
is_failed failed = true
is_failed _ = false

-- The job was run: it is done or failed, or still running where what was raised is no Exception.
abbrev pub was_run : Status → Bool
was_run queued = false
was_run cancelled = false
was_run _ = true

-- The status that the record has at a stage of its job. A shutdown cancels stages whose records
-- stay queued.
abbrev pub wants : Stage → Status → Bool
wants holding s = false
wants entered s = is_queued s
wants withdrawn s = is_failed s
wants rejected s = is_failed s
wants pending s = is_queued s
wants taken s = is_queued s
wants active s = is_running s
wants closing s = was_run s
wants leaving s = was_run s
wants finished s = was_run s
wants dropped s = is_queued s || is_cancelled s
wants crashed s = false

-- The stages at which the history may lack the record.
abbrev pub spares : Stage → Bool
spares entered = false
spares pending = false
spares taken = false
spares active = false
spares crashed = false
spares _ = true

-- What the history holds of a job whose stage is this one; a job that was not drawn has no record.
abbrev pub fits : Option Stage → Option JobRecord → Bool
fits none none = true
fits none (some r) = false
fits (some f) none = spares f
fits (some f) (some r) = wants f r.status

-- A history and the stages of its jobs fit together.
pub record IsLinked (jobs : Dict JobRecord) (stages : Dict Stage) : Type 0 where
  pub distinct : IsDistinct jobs
  pub named : IsNamed jobs
  pub fitting : (id : Text) → fits (get stages id) (get jobs id) ≡ true

spares_of_terminal :
    (f : Stage) (s : Status) → wants f s ≡ true → is_terminal s ≡ true → spares f ≡ true
spares_of_terminal holding s h t = refl
spares_of_terminal entered queued h t = cc
spares_of_terminal entered running h t = cc
spares_of_terminal entered done h t = cc
spares_of_terminal entered failed h t = cc
spares_of_terminal entered cancelled h t = cc
spares_of_terminal withdrawn s h t = refl
spares_of_terminal rejected s h t = refl
spares_of_terminal pending s h t = ground arith
spares_of_terminal taken s h t = ground arith
spares_of_terminal active s h t = ground arith
spares_of_terminal closing s h t = refl
spares_of_terminal leaving s h t = refl
spares_of_terminal finished s h t = refl
spares_of_terminal dropped s h t = refl
spares_of_terminal crashed s h t = cc

fits-ended :
    (f : Option Stage) (r : JobRecord)
    → fits f (some r) ≡ true
    → is_terminal r.status ≡ true
    → fits f none ≡ true
fits-ended none r h t = refl
fits-ended (some f) r h t = spares_of_terminal f r.status h t

-- A trim keeps what a stage needs.
fits-trim :
    (n : ℕ) (jobs : Dict JobRecord) (id : Text) (f : Option Stage)
    → IsDistinct jobs
    → IsNamed jobs
    → fits f (get jobs id) ≡ true
    → fits f (get (trim n jobs) id) ≡ true
fits-trim n jobs id f u m h = elim (Option-cases (get (trim n jobs) id)) [
  | inr (r, kept) ↦ rw (kept) (rw (trim-sub n jobs id r kept) at h)
  | inl removed ↦ elim (Option-cases (get jobs id)) [
    | inl gone ↦ rw (removed) (rw (gone) at h)
    | inr (r, there) ↦ elim (Bool-cases (is_terminal r.status)) [
      | inl over ↦ rw (removed) (fits-ended f r (rw (there) at h) over)
      | inr live ↦ absurd (cc (trim-kept n jobs id r u m there live, removed))
    ]
  ]
]

queued_or_cancelled : (s : Status) → is_queued s ≡ true → (is_queued s || is_cancelled s) ≡ true
queued_or_cancelled s h = ground arith

fits-drop_option :
    (f : Option Stage) (o : Option JobRecord) → fits f o ≡ true → fits (drop_option f) o ≡ true
fits-drop_option none o h = h
fits-drop_option (some pending) none h = cc
fits-drop_option (some pending) (some r) h = queued_or_cancelled r.status h
fits-drop_option (some holding) o h = h
fits-drop_option (some entered) o h = h
fits-drop_option (some withdrawn) o h = h
fits-drop_option (some rejected) o h = h
fits-drop_option (some taken) o h = h
fits-drop_option (some active) o h = h
fits-drop_option (some closing) o h = h
fits-drop_option (some leaving) o h = h
fits-drop_option (some finished) o h = h
fits-drop_option (some dropped) o h = h
fits-drop_option (some crashed) o h = h

pub fits_of_status :
    (f : Option Stage) (r r' : JobRecord)
    → fits f (some r) ≡ true
    → r'.status ≡ r.status
    → fits f (some r') ≡ true
fits_of_status none r r' h e = h
fits_of_status (some f) r r' h e = rw e h

pub settled-id : (r : JobRecord) (o : Outcome) → (settled r o).id ≡ r.id
settled-id r (returned v) = refl
settled-id r (raised e) = refl

pub settled-was_run : (r : JobRecord) (o : Outcome) → was_run (settled r o).status ≡ true
settled-was_run r (returned v) = refl
settled-was_run r (raised e) = refl

pub running-was_run : (s : Status) → is_running s ≡ true → was_run s ≡ true
running-was_run s h = ground arith

pub named_at :
    (jobs : Dict JobRecord) (id : Text) (r : JobRecord)
    → IsNamed jobs
    → get jobs id ≡ some r
    → r.id ≡ id
unfolding get
named_at [] id r h e = cc
named_at ((j, q) ∷ jobs) id r (n, h) e = ground (arith, named_at jobs id r h, str_iff j id)

module _ {jobs : Dict JobRecord} {stages : Dict Stage} (h : IsLinked jobs stages) where
  pub IsLinked-both :
      (id : Text) (r : JobRecord) (f : Stage)
      → r.id ≡ id
      → fits (some f) (some r) ≡ true
      → IsLinked (put jobs id r) (put stages id f)
  IsLinked-both id r f e k = record {
    distinct = put-IsDistinct jobs id r h.distinct;
    named = put-IsNamed jobs id r e h.named;
    fitting = λ j. elim (Bool-cases (id == j)) [
      | inl same ↦ rw (get-put stages id j f, get-put jobs id j r, same) k
      | inr apart ↦ rw (get-put stages id j f, get-put jobs id j r, apart) (h.fitting j)
    ];
  }

  pub IsLinked-job :
      (id : Text) (r : JobRecord)
      → r.id ≡ id
      → fits (get stages id) (some r) ≡ true
      → IsLinked (put jobs id r) stages
  IsLinked-job id r e k = record {
    distinct = put-IsDistinct jobs id r h.distinct;
    named = put-IsNamed jobs id r e h.named;
    fitting = λ j. elim (Bool-cases (id == j)) [
      | inl same ↦
          rw (get-put jobs id j r, same)
            (subst (λ i. fits (get stages i) (some r) ≡ true) ((str_iff id j).0 same) k)
      | inr apart ↦ rw (get-put jobs id j r, apart) (h.fitting j)
    ];
  }

  pub IsLinked-stage :
      (id : Text) (f : Stage) → fits (some f) (get jobs id) ≡ true → IsLinked jobs (put stages id f)
  IsLinked-stage id f k = record {
    distinct = h.distinct;
    named = h.named;
    fitting = λ j. elim (Bool-cases (id == j)) [
      | inl same ↦
          rw (get-put stages id j f, same)
            (subst (λ i. fits (some f) (get jobs i) ≡ true) ((str_iff id j).0 same) k)
      | inr apart ↦ rw (get-put stages id j f, apart) (h.fitting j)
    ];
  }

  pub IsLinked-trim : (n : ℕ) → IsLinked (trim n jobs) stages
  IsLinked-trim n = record {
    distinct = trim-IsDistinct n jobs h.distinct;
    named = trim-IsNamed n jobs h.named;
    fitting = λ j. fits-trim n jobs j (get stages j) h.distinct h.named (h.fitting j);
  }

  pub IsLinked-drop_all : IsLinked jobs (drop_all stages)
  IsLinked-drop_all = record {
    distinct = h.distinct;
    named = h.named;
    fitting = λ j. rw get-drop_all (fits-drop_option (get stages j) (get jobs j) (h.fitting j));
  }

abbrev pub Linked : JobQueue → Type 0
Linked q = IsLinked q.jobs q.stages
