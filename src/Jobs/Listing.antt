-- ===== src/Jobs/Listing.antt =====
-- `list` and the free slots of `stats` of quickapi/jobs/queue.py.
use quick_api.Base.{ℕ, ◌-◌, Dict, values, Value, List, [], ◌∷◌, map, if◌then◌else◌, leb, nat_eq}
use quick_api.Jobs.{JobRecord, JobQueue, to_dict}

-- `available_slots` of `stats`
unfoldable pub available_slots : JobQueue → ℕ
available_slots q = q.max_pending - q.inflight

-- `list`: the newest record first; `reverse=True` keeps the order of equal times
unfoldable pub insert_by_youth : JobRecord → List JobRecord → List JobRecord
insert_by_youth r [] = r ∷ []
insert_by_youth r (q ∷ qs) =
    let later = q ∷ insert_by_youth r qs in
    if leb q.created_at r.created_at then r ∷ q ∷ qs else later

unfoldable pub sort_by_youth : List JobRecord → List JobRecord
unfolding insert_by_youth
sort_by_youth [] = []
sort_by_youth (r ∷ rs) = insert_by_youth r (sort_by_youth rs)

unfoldable pub list_jobs : JobQueue → List (Dict Value)
unfolding sort_by_youth values to_dict
list_jobs q = map to_dict (sort_by_youth (values q.jobs))
