-- ===== src/Revalidation/Counts.antt =====
-- Counts of keys, in the set of keys in flight and in lists of jobs, for Revalidation/Flights.
use once_mesh.Base.{
  ℕ, suc, ◌+◌, ◌≤◌, ◌≡◌, refl, ap, ◌∙◌, String, false, List, [], ◌∷◌, ◌++◌, ◌==◌, contains, eq_iff,
  map, arith, if◌then◌else◌,
}
use once_mesh.Revalidation.{Job, discard}

-- How often a key is in a list.
unfoldable pub count : String → List String → ℕ
count key [] = 0
count key (k ∷ ks) = let rest = count key ks in if k == key then suc rest else rest

-- How many of the jobs have a key.
unfoldable pub count_jobs : String → List Job → ℕ
unfolding count
count_jobs key jobs = count key (map (λ (job : Job). job.key) jobs)

pub count-append :
    (key : String) (xs ys : List String) → count key (xs ++ ys) ≡ count key xs + count key ys
unfolding count
count-append key [] ys = omega arith
count-append key (x ∷ xs) ys = ground (arith, count-append key xs ys)

-- The jobs before and after one job, and this one.
count_jobs-middle :
    (key : String) (before : List Job) (job : Job) (after : List Job)
    → count_jobs key (before ++ job ∷ after)
      ≡ count_jobs key (before ++ after) + count key (job.key ∷ [])
unfolding count_jobs count
count_jobs-middle key [] job after = ground arith
count_jobs-middle key (x ∷ xs) job after = ground (arith, count_jobs-middle key xs job after)

pub count_jobs-snoc :
    (key : String) (jobs : List Job) (job : Job)
    → count_jobs key (jobs ++ job ∷ []) ≡ count_jobs key jobs + count key (job.key ∷ [])
unfolding count_jobs count
count_jobs-snoc key [] job = ground arith
count_jobs-snoc key (x ∷ xs) job = ground (arith, count_jobs-snoc key xs job)

count-absent : (key : String) (ks : List String) → contains ks key ≡ false → count key ks ≡ 0
unfolding count contains
count-absent key [] h = refl
count-absent key (k ∷ ks) h = ground (arith, count-absent key ks)

-- `set.discard` takes its own key out and leaves every other key.
count-discard :
    (key k : String) (ks : List String)
    → count key (discard k ks) ≡ (if k == key then 0 else count key ks)
unfolding count discard
count-discard key k [] = ground arith
count-discard key k (x ∷ xs) =
    ground (arith, count-discard key k xs, eq_iff x k, eq_iff k key, eq_iff x key)

pub count-add :
    (key k : String) (ks : List String)
    → contains ks k ≡ false
    → count key ks ≤ 1
    → count key (ks ++ k ∷ []) ≤ 1
unfolding count
count-add key k ks absent bound =
    ground (arith, count-append key ks (k ∷ []), count-absent k ks absent, eq_iff k key)

-- What a withdrawal leaves of a count, one of which is for the key withdrawn.
pub count-withdraw :
    (key k : String) (ks : List String) (rest : ℕ)
    → count key ks ≡ rest + count key (k ∷ [])
    → count key ks ≤ 1
    → count key (discard k ks) ≡ rest
unfolding count
count-withdraw key k ks rest held bound = ground (arith, count-discard key k ks)

pub count_jobs-split :
    (key : String) (jobs before : List Job) (job : Job) (after : List Job)
    → jobs ≡ before ++ job ∷ after
    → count_jobs key jobs ≡ count_jobs key (before ++ after) + count key (job.key ∷ [])
count_jobs-split key jobs before job after split =
    ap (count_jobs key) split ∙ count_jobs-middle key before job after
