-- ===== src/Lifecycle.antt =====
-- The life of a job, as one specification for the services that write the table `jobs`: which
-- status may follow which in the row of one job, and that nothing else of the table changes.
use filo_j.Prelude.{
  ℕ, String, ◌≡◌, refl, Bool, true, not, ◌&&◌, ◌||◌, List, [], ◌∷◌, map, nat_eq, arith, eq_iff,
  ◌==◌, Bool-cases, inl, inr, select, false, elem, ◌⊎◌, ◌≢◌, ap, ◌∙◌,
}
use filo_j.Shared.Models.{Job}
use filo_j.Shared.Rows.{edit_job}

-- Do all rows of the job have this status?
abbrev pub all_status : ℕ → String → List Job → Bool
all_status k status [] = true
all_status k status (job ∷ jobs) =
    (not (nat_eq job.id k) || job.status == status) && all_status k status jobs

-- An assignment of the status, which leaves the keys as they are
abbrev pub Assigns : String → (Job → Job) → Type 0
Assigns status f =
    (job : Job)
    → ((f job).status ≡ status) × ((f job).id ≡ job.id) × ((f job).file_id ≡ job.file_id)

-- Which status follows which. A scan may begin, and a job may fail, whatever the status was; the
-- other changes need the status before, and the verdict of the scan: `judged true` says that there is
-- one that the file is clean, and `judged false` one that it is not.
pub data Follows (judged : Bool → Type 0) (before : String → Type 0) : String → Type 0 where
  begins : Follows judged before "scanning"
  fails : Follows judged before "failed"
  waits : Follows judged before "queued_for_retry"
  cleared : judged true → before "scanning" → Follows judged before "clean"
  infected : judged false → before "scanning" → Follows judged before "infected"
  quarantined : judged false → before "infected" → Follows judged before "quarantined"
  completed : judged true → before "clean" → Follows judged before "completed"

-- One commit
pub data Change (judged : Bool → Type 0) (k : ℕ) (jobs jobs' : List Job) : Type 0 where
  change :
      (status : String) (f : Job → Job)
      → Assigns status f
      → Follows judged (λ before. all_status k before jobs ≡ true) status
      → jobs' ≡ map (edit_job k f) jobs
      → Change judged k jobs jobs'

-- A sequence of commits
pub data Life (judged : Bool → Type 0) (k : ℕ) (jobs : List Job) : List Job → Type 0 where
  same : Life judged k jobs jobs
  later :
      {jobs1 jobs2 : List Job}
      → Life judged k jobs jobs1
      → Change judged k jobs1 jobs2
      → Life judged k jobs jobs2

pub all_status-edit_job :
    (k : ℕ) (status : String) (f : Job → Job) (jobs : List Job)
    → Assigns status f
    → all_status k status (map (edit_job k f) jobs) ≡ true
all_status-edit_job k status f [] a = refl
all_status-edit_job k status f (job ∷ jobs) a = elim (Bool-cases (nat_eq job.id k)) [
  | inl e ↦
      ground (arith, a job, eq_iff (f job).status status, all_status-edit_job k status f jobs a)
  | inr e ↦ ground (arith, all_status-edit_job k status f jobs a)
]

-- The rows of all other jobs
abbrev pub others : ℕ → List Job → List Job
others k jobs = select (λ (job : Job). not (nat_eq job.id k)) jobs

-- The status that a scan can leave behind without the verdict
abbrev pub without : Bool → List String
without true = "scanning" ∷ "queued_for_retry" ∷ "failed" ∷ "infected" ∷ "quarantined" ∷ []
without false = "scanning" ∷ "queued_for_retry" ∷ "failed" ∷ "clean" ∷ "completed" ∷ []

-- The table is what it was, or only the rows of the job are other ones, and their status is one that
-- does not need the verdict.
abbrev pub EndsWithout : Bool → ℕ → List Job → List Job → Type 0
EndsWithout verdict k jobs jobs' =
    (jobs' ≡ jobs)
    ⊎ ((status : String) × (elem status (without verdict) ≡ true)
        × (all_status k status jobs' ≡ true)
        × (others k jobs' ≡ others k jobs))

others-edit_job :
    (k : ℕ) (status : String) (f : Job → Job) (jobs : List Job)
    → Assigns status f
    → others k (map (edit_job k f) jobs) ≡ others k jobs
others-edit_job k status f [] a = refl
others-edit_job k status f (job ∷ jobs) a =
    let rest = others-edit_job k status f jobs a in
    elim (Bool-cases (nat_eq job.id k)) [
      | inl e ↦ ground (arith, e, a job, rest)
      | inr e ↦ ground (arith, e, rest)
    ]

Follows-without :
    (verdict : Bool) (before : String → Type 0) (status : String)
    → Follows (λ b. b ≢ verdict) before status
    → elem status (without verdict) ≡ true
Follows-without true before status begins = refl
Follows-without true before status fails = refl
Follows-without true before status waits = refl
Follows-without true before status (cleared j h) = absurd (j refl)
Follows-without true before status (infected j h) = refl
Follows-without true before status (quarantined j h) = refl
Follows-without true before status (completed j h) = absurd (j refl)
Follows-without false before status begins = refl
Follows-without false before status fails = refl
Follows-without false before status waits = refl
Follows-without false before status (cleared j h) = refl
Follows-without false before status (infected j h) = absurd (j refl)
Follows-without false before status (quarantined j h) = absurd (j refl)
Follows-without false before status (completed j h) = refl

others-same :
    (verdict : Bool) (k : ℕ) (jobs jobs' : List Job)
    → EndsWithout verdict k jobs jobs'
    → others k jobs' ≡ others k jobs
others-same verdict k jobs jobs' (inl e) = ap (others k) e
others-same verdict k jobs jobs' (inr (status, known, all, same_rows)) = same_rows

pub Life-EndsWithout :
    (verdict : Bool) (k : ℕ) (jobs jobs' : List Job)
    → Life (λ b. b ≢ verdict) k jobs jobs'
    → EndsWithout verdict k jobs jobs'
Life-EndsWithout verdict k jobs jobs' same = inl refl
Life-EndsWithout verdict k jobs jobs' (later {jobs1} rest (change status f a follows e)) = inr (
  status,
  Follows-without verdict (λ before. all_status k before jobs1 ≡ true) status follows,
  ap (all_status k status) e ∙ all_status-edit_job k status f jobs1 a,
  ap (others k) e
      ∙ (others-edit_job k status f jobs1 a
          ∙ others-same verdict k jobs jobs1 (Life-EndsWithout verdict k jobs jobs1 rest)),
)
