-- ===== src/App/Builtin/Queue.antt =====
-- What a request to the endpoint of a job does to the job queue.
use mathlib.Core.List.{append_assoc, append-nil}
use quick_api.Base.{
  ℕ, Bool, true, false, Text, get, codes, str_beq, nat_beq, starts_with, any, none, some, [], ◌∷◌,
  ◌++◌, ◌≡◌, refl, ap, ◌∙◌, sym, inl, inr, ◌&&◌, ◌==◌, text_eq, if◌then◌else◌, str_iff, Bool-cases,
  Option-cases,
}
use quick_api.Base.Strings.{split, split_from}
use quick_api.Http.{Request}
use quick_api.Jobs.{cancel}
use quick_api.App.Builtin.{job, last_part, endpoint_of, Switches, refused}
use quick_api.App.Builtin.Serve.{Backend, Services, serve_job, serve_endpoint, handle_builtin}

-- A text without a slash is one part.
split_from-whole :
    (cur id : Text)
    → any (λ c. nat_beq c b'/') id ≡ false
    → split_from b'/' cur id ≡ (cur ++ id) ∷ []
unfolding split_from
split_from-whole cur [] h = ap (λ t. t ∷ []) (sym (append-nil cur))
split_from-whole cur (c ∷ id) h = elim (Bool-cases (nat_beq c b'/')) [
  | inl slash ↦ absurd (cc (rw (slash) at h))
  | inr other ↦ rw (other) (
      split_from-whole (cur ++ c ∷ []) id (rw (other) at h)
      ∙ ap (λ t. t ∷ []) (append_assoc cur (c ∷ []) id))
]

and_false : (a : Bool) → (a && false) ≡ false
and_false true = refl
and_false false = refl

last_part-job :
    (id : Text) → any (λ c. nat_beq c b'/') id ≡ false → last_part (codes "/quick/jobs/" ++ id) ≡ id
unfolding last_part split split_from codes
last_part-job id h = rw (split_from-whole [] id h) refl

endpoint_of-job :
    (req : Request) (id : Text)
    → req.path ≡ codes "/quick/jobs/" ++ id
    → last_part req.path ≡ id
    → endpoint_of req ≡ some (job id)
unfolding endpoint_of codes str_beq starts_with
endpoint_of-job req id path last =
    rw (path, and_false, and_false) (rw (path) at (ap (λ t. some (job t)) last))

not_both : (t : Text) → (t == codes "GET") ≡ true → (t == codes "DELETE") ≡ false
unfolding codes str_beq
not_both t reads = rw ((str_iff t (codes "GET")).0 reads) refl

module _ {V : Type 0} (new_id : Text) (now : ℕ) where
  missing_kept :
      (id : Text) (b : Backend V)
      → get b.jobs.jobs id ≡ none
      → b ≡ record b { jobs = (cancel b.jobs id now).0 }
  unfolding cancel
  missing_kept id b missing = rw (missing, cancel) refl

  serve_job-cancels :
      (id : Text) (req : Request) (b : Backend V)
      → (serve_job new_id now id req b).1
        ≡ (if req.method == codes "DELETE" then record b { jobs = (cancel b.jobs id now).0 } else b)
  unfolding serve_job
  serve_job-cancels id req b = elim (Option-cases (get b.jobs.jobs id)) [
    | inl missing ↦ elim (Bool-cases (req.method == codes "DELETE")) [
      | inl deletes ↦ rw (missing, deletes, serve_job) (missing_kept id b missing)
      | inr other ↦ rw (missing, other, serve_job) refl
    ]
    | inr (r, there) ↦ elim (Bool-cases (req.method == codes "GET")) [
      | inl reads ↦
          let other : (req.method == codes "DELETE") ≡ false = not_both req.method reads in
          rw (there, reads, other, serve_job) refl
      | inr shown ↦ elim (Bool-cases (req.method == codes "DELETE")) [
        | inl deletes ↦ rw (there, shown, deletes, serve_job) refl
        | inr other ↦ rw (there, shown, other, serve_job) refl
      ]
    ]
  ]

  -- A request to the path of a job, whose id has no slash, whatever is switched on and whatever the
  -- services do: DELETE leaves the queue that `cancel` of that job leaves, and changes nothing else;
  -- every other method changes nothing.
  pub handle_builtin-cancels :
      (s : Switches) (services : Services V) (req : Request) (b : Backend V) (id : Text)
      → req.path ≡ codes "/quick/jobs/" ++ id
      → any (λ c. nat_beq c b'/') id ≡ false
      → (handle_builtin new_id now s services req b).1
        ≡ (if req.method == codes "DELETE" then record b { jobs = (cancel b.jobs id now).0 } else b)
  unfolding handle_builtin refused serve_endpoint
  handle_builtin-cancels s services req b id path whole =
      rw (endpoint_of-job req id path (rw (path) (last_part-job id whole)), handle_builtin)
        (serve_job-cancels id req b)
