-- ===== src/Shared/Rows.antt =====
-- The rows of `jobs` and `file_metadata` as a worker reads and writes them. An assignment to a row
-- has an effect when it is committed, so a commit that fails leaves the row as it was.
pub mod Laws
use filo_j.Prelude.{
  ℕ, suc, String, Bool, Option, none, some, List, [], ◌∷◌, map, select, Result, ok, err, Exec,
  nat_eq, if◌then◌else◌,
}
use filo_j.Shared.Errors.{Exn, exn, multiple_results_found}
use filo_j.Shared.Models.{Job, FileMetaData}
use filo_j.Shared.World.{World, Faults, tick}

-- `scalar_one_or_none()`
abbrev pub one_or_none : {A : Type 0} → List A → Result Exn (Option A)
one_or_none [] = ok none
one_or_none (x ∷ []) = ok (some x)
one_or_none (x ∷ y ∷ rest) = err (exn multiple_results_found "Multiple rows were found")

-- `(await db.execute(select(…).where(…))).scalar_one_or_none()`
unfoldable pub select_one :
    {A : Type 0} → Faults → (World → List A) → (A → Bool) → Exec World Exn (Option A)
select_one fault rows test w = elim (fault w.calls) [
  | some e ↦ (err e, tick w)
  | none ↦ (one_or_none (select test (rows w)), tick w)
]

abbrev pub edit_job : ℕ → (Job → Job) → Job → Job
edit_job id f job = if nat_eq job.id id then f job else job

abbrev pub edit_file : ℕ → (FileMetaData → FileMetaData) → FileMetaData → FileMetaData
edit_file id f file = if nat_eq file.id id then f file else file

-- What a commit writes
unfoldable pub set_job : ℕ → (Job → Job) → World → World
set_job id f w = record w { jobs = map (edit_job id f) w.jobs }

unfoldable pub set_file : ℕ → (FileMetaData → FileMetaData) → World → World
set_file id f w = record w { files = map (edit_file id f) w.files }

abbrev pub first_row : {A : Type 0} → List A → Option A
first_row [] = none
first_row (x ∷ rest) = some x

-- A row by its primary key, of which there is one at most
unfoldable pub select_first :
    {A : Type 0} → Faults → (World → List A) → (A → Bool) → Exec World Exn (Option A)
select_first fault rows test w = elim (fault w.calls) [
  | some e ↦ (err e, tick w)
  | none ↦ (ok (first_row (select test (rows w))), tick w)
]
