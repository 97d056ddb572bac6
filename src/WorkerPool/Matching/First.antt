-- ===== src/WorkerPool/Matching/First.antt =====
-- Which worker `matchWorkerFor` finds.
use cloudtty.Base.{String, Bool, true, false, List, [], ◌∷◌, ◌++◌, if◌then◌else◌, ◌≡◌, refl, arith}
use cloudtty.Cluster.Monad.{Request}
use cloudtty.WorkerPool.Matching.{names_of, fits, find_worker}

abbrev pub none_fits : List String → Request → Bool
none_fits [] req = true
none_fits (key ∷ keys) req =
    let rest = none_fits keys req in if fits (names_of key) req then false else rest

-- The name is that of the first key in the queue whose namespace and image are those of the request,
-- and empty if there is none.
pub find_worker_first :
    (before : List String) (key : String) (after : List String) (req : Request)
    → none_fits before req ≡ true
    → (find_worker before req ≡ "")
      × (fits (names_of key) req ≡ true
          → find_worker (before ++ key ∷ after) req ≡ (names_of key).name)
unfolding find_worker
find_worker_first [] key after req h = (refl, λ fit. rw fit refl)
find_worker_first (k ∷ before) key after req h =
    let (a, b) = find_worker_first before key after req (ground arith) in
    (ground (arith, a), λ fit. ground (arith, b fit))
