-- ===== src/Jobs/Trim.antt =====
-- Trimming the history removes finished jobs only.
use quick_api.Base.{
  ℕ, zero, suc, ◌-◌, Text, Dict, get, put, pop, get-pop, values, IsDistinct, pop-IsDistinct, true,
  false, none, some, List, [], ◌∷◌, ◌≡◌, refl, sym, ◌∙◌, ap, length, take, leb, keep, All, arith,
  ◌==◌, text_eq, str_iff, Bool-cases, inl, inr,
}
use quick_api.Jobs.{JobRecord, is_terminal, insert_by_age, sort_by_age, pop_all, removable, trim}

-- Every record stands under its own id.
abbrev pub IsNamed : Dict JobRecord → Type 0
IsNamed [] = Unit
IsNamed ((k, r) ∷ d) = (r.id ≡ k) × IsNamed d

pub put-IsNamed :
    (d : Dict JobRecord) (k : Text) (r : JobRecord) → r.id ≡ k → IsNamed d → IsNamed (put d k r)
unfolding put
put-IsNamed [] k r e h = (e, tt)
put-IsNamed ((j, q) ∷ d) k r e (n, h) = elim (Bool-cases (j == k)) [
  | inl same ↦ rw same (e ∙ sym ((str_iff j k).0 same), h)
  | inr apart ↦ rw apart (n, put-IsNamed d k r e h)
]

pop-IsNamed : (d : Dict JobRecord) (k : Text) → IsNamed d → IsNamed (pop d k)
unfolding pop
pop-IsNamed [] k h = tt
pop-IsNamed ((j, q) ∷ d) k (n, h) = elim (Bool-cases (j == k)) [
  | inl same ↦ rw same (pop-IsNamed d k h)
  | inr apart ↦ rw apart (n, pop-IsNamed d k h)
]

-- What a record that may be removed satisfies: it has ended, and stands in the history.
abbrev Ended : Dict JobRecord → JobRecord → Type 0
Ended jobs q = (is_terminal q.status ≡ true) × (get jobs q.id ≡ some q)

All-shift :
    (k : Text) (v : JobRecord) (d : Dict JobRecord) (rs : List JobRecord)
    → get d k ≡ none
    → All (λ q. get d q.id ≡ some q) rs
    → All (λ q. get ((k, v) ∷ d) q.id ≡ some q) rs
unfolding get
All-shift k v d [] n h = tt
All-shift k v d (q ∷ rs) n (e, h) = (ground (arith, n, e, str_iff k q.id), All-shift k v d rs n h)

values-All :
    (d : Dict JobRecord) → IsDistinct d → IsNamed d → All (λ q. get d q.id ≡ some q) (values d)
unfolding values get
values-All [] u h = tt
values-All ((k, v) ∷ d) (n, u) (e, h) =
    (ground (arith, e, str_iff k v.id), All-shift k v d (values d) n (values-All d u h))

keep-Ended :
    (jobs : Dict JobRecord) (rs : List JobRecord)
    → All (λ q. get jobs q.id ≡ some q) rs
    → All (Ended jobs) (keep (λ r. is_terminal r.status) rs)
unfolding keep
keep-Ended jobs [] h = tt
keep-Ended jobs (q ∷ rs) (e, h) = elim (Bool-cases (is_terminal q.status)) [
  | inl t ↦ rw t ((t, e), keep-Ended jobs rs h)
  | inr t ↦ rw t (keep-Ended jobs rs h)
]

module _ (P : JobRecord → Type 0) where
  insert_by_age-All :
      (r : JobRecord) (rs : List JobRecord) → P r → All P rs → All P (insert_by_age r rs)
  unfolding insert_by_age
  insert_by_age-All r [] p h = (p, tt)
  insert_by_age-All r (q ∷ qs) p (e, h) = elim (Bool-cases (leb r.created_at q.created_at)) [
    | inl t ↦ rw t (p, (e, h))
    | inr t ↦ rw t (e, insert_by_age-All r qs p h)
  ]

  sort_by_age-All : (rs : List JobRecord) → All P rs → All P (sort_by_age rs)
  unfolding sort_by_age
  sort_by_age-All [] h = tt
  sort_by_age-All (r ∷ rs) (p, h) = insert_by_age-All r (sort_by_age rs) p (sort_by_age-All rs h)

  take-All : (n : ℕ) (rs : List JobRecord) → All P rs → All P (take n rs)
  take-All zero rs h = tt
  take-All (suc n) [] h = tt
  take-All (suc n) (r ∷ rs) (p, h) = (p, take-All n rs h)

ended_apart :
    (jobs : Dict JobRecord) (q r : JobRecord) (id : Text)
    → is_terminal q.status ≡ true
    → get jobs q.id ≡ some q
    → get jobs id ≡ some r
    → is_terminal r.status ≡ false
    → (q.id == id) ≡ false
ended_apart jobs q r id ended there e t = elim (Bool-cases (q.id == id)) [
  | inr apart ↦ apart
  | inl same ↦
      let key : q.id ≡ id = (str_iff q.id id).0 same in
      let one : some q ≡ some r = sym there ∙ ap (get jobs) key ∙ e in cc (one, ended, t)
]

get-pop_all :
    (jobs now : Dict JobRecord) (rs : List JobRecord) (id : Text) (r : JobRecord)
    → All (Ended jobs) rs
    → get jobs id ≡ some r
    → is_terminal r.status ≡ false
    → get (pop_all now rs) id ≡ get now id
unfolding pop_all
get-pop_all jobs now [] id r h e t = refl
get-pop_all jobs now (q ∷ rs) id r ((ended, there), h) e t =
    get-pop_all jobs (pop now q.id) rs id r h e t
    ∙ get-pop now q.id id
    ∙ rw (ended_apart jobs q r id ended there e t) refl

pub trim-kept :
    (n : ℕ) (jobs : Dict JobRecord) (id : Text) (r : JobRecord)
    → IsDistinct jobs
    → IsNamed jobs
    → get jobs id ≡ some r
    → is_terminal r.status ≡ false
    → get (trim n jobs) id ≡ some r
unfolding trim removable
trim-kept n jobs id r u h e t = elim (Bool-cases (leb (length jobs) n)) [
  | inl short ↦ rw short e
  | inr long ↦ rw long (
      get-pop_all jobs jobs _ id r
        (take-All (Ended jobs) (length jobs - n) _
          (sort_by_age-All (Ended jobs) _ (keep-Ended jobs (values jobs) (values-All jobs u h))))
        e t
      ∙ e)
]

pop_all-sub :
    (jobs : Dict JobRecord) (rs : List JobRecord) (id : Text) (r : JobRecord)
    → get (pop_all jobs rs) id ≡ some r
    → get jobs id ≡ some r
unfolding pop_all
pop_all-sub jobs [] id r e = e
pop_all-sub jobs (q ∷ rs) id r e =
    let before : get (pop jobs q.id) id ≡ some r = pop_all-sub (pop jobs q.id) rs id r e in
    ground (arith, before, get-pop jobs q.id id)

-- What is left after a trim stood in the history before.
pub trim-sub :
    (n : ℕ) (jobs : Dict JobRecord) (id : Text) (r : JobRecord)
    → get (trim n jobs) id ≡ some r
    → get jobs id ≡ some r
unfolding trim
trim-sub n jobs id r e = elim (Bool-cases (leb (length jobs) n)) [
  | inl short ↦ rw (short, trim) at e
  | inr long ↦
      pop_all-sub jobs (take (length jobs - n) (removable jobs)) id r (rw (long, trim) at e)
]

pop_all-IsNamed :
    (jobs : Dict JobRecord) (rs : List JobRecord) → IsNamed jobs → IsNamed (pop_all jobs rs)
unfolding pop_all
pop_all-IsNamed jobs [] h = h
pop_all-IsNamed jobs (q ∷ rs) h = pop_all-IsNamed (pop jobs q.id) rs (pop-IsNamed jobs q.id h)

pop_all-IsDistinct :
    (jobs : Dict JobRecord) (rs : List JobRecord) → IsDistinct jobs → IsDistinct (pop_all jobs rs)
unfolding pop_all
pop_all-IsDistinct jobs [] h = h
pop_all-IsDistinct jobs (q ∷ rs) h =
    pop_all-IsDistinct (pop jobs q.id) rs (pop-IsDistinct jobs q.id h)

pub trim-IsNamed : (n : ℕ) (jobs : Dict JobRecord) → IsNamed jobs → IsNamed (trim n jobs)
unfolding trim
trim-IsNamed n jobs h = elim (Bool-cases (leb (length jobs) n)) [
  | inl short ↦ rw short h
  | inr long ↦ rw long (pop_all-IsNamed jobs (take (length jobs - n) (removable jobs)) h)
]

pub trim-IsDistinct : (n : ℕ) (jobs : Dict JobRecord) → IsDistinct jobs → IsDistinct (trim n jobs)
unfolding trim
trim-IsDistinct n jobs h = elim (Bool-cases (leb (length jobs) n)) [
  | inl short ↦ rw short h
  | inr long ↦ rw long (pop_all-IsDistinct jobs (take (length jobs - n) (removable jobs)) h)
]
