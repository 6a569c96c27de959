-- ===== src/Pipeline.antt =====
-- The composition of the services: api/main.py stores an upload and sends a task to the exchange
-- `work.tasks`, whose consumer is security_scanner/worker.py.
pub mod Scan
pub mod Verdicts
pub mod Images
pub mod Delivery
use filo_j.Prelude.{
  ℕ, String, ◌≡◌, refl, ap, ◌∙◌, Bool, true, false, not, ◌&&◌, ◌||◌, Option, none, some, List, [],
  ◌∷◌, ◌++◌, map, select, nat_eq, Result, ok, err, Bool-cases, inl, inr, arith, eq_refl,
  if◌then◌else◌, ◌==◌,
}
use filo_j.Shared.Errors.{Exn}
use filo_j.Shared.Models.{Job, FileMetaData}
use filo_j.Shared.Values.{Dict}
use filo_j.Shared.World.{Published, World}
use filo_j.Shared.Rows.{edit_job, edit_file}
use filo_j.Shared.Storage.{has_object}
use filo_j.Shared.Message.{Message, decoded}
use filo_j.SecurityScanner.Frame.{Frame}

-- The payload of the last message on `work.tasks`, after one that was found before
abbrev pub last_task : Dict → List Published → Dict
last_task found [] = found
last_task found (m ∷ messages) =
    if m.exchange == "work.tasks" then last_task m.payload messages else last_task found messages

abbrev pub last_message : Option Published → List Published → Option Published
last_message found [] = found
last_message found (m ∷ messages) = last_message (some m) messages

-- The statuses of the rows of a job
abbrev pub statuses : ℕ → List Job → List String
statuses k jobs = map (λ job. job.status) (select (λ job. nat_eq job.id k) jobs)

-- The message on `work.tasks`, as it is delivered after that many failed deliveries
abbrev pub delivered : ℕ → World → Message
delivered delivery_count w = record {
  body = decoded (last_task [] w.published);
  delivery_count = delivery_count;
}

-- The run returned; the job `k` is one row with the status, and the event is the last message.
abbrev pub Finishes : ℕ → String → Published → Result Exn (Unit {0}) × Frame → Type 0
Finishes k status event (result, f) =
    (result ≡ ok tt)
    × (statuses k f.world.jobs ≡ status ∷ [])
    × (last_message none f.world.published ≡ some event)

-- Is an object with this key in the bucket?
abbrev pub stored_in : String → String → Result Exn (Unit {0}) × Frame → Bool
stored_in bucket key (_, f) = has_object bucket key f.world.objects

pub last_task-append :
    (found : Dict) (messages : List Published) (task event : Published)
    → (task.exchange == "work.tasks") ≡ true
    → (event.exchange == "work.tasks") ≡ false
    → last_task found ((messages ++ task ∷ []) ++ event ∷ []) ≡ task.payload
last_task-append found [] task event is_task is_event = ground (arith, is_task, is_event)
last_task-append found (m ∷ messages) task event is_task is_event = ground (
  arith,
  last_task-append found messages task event is_task is_event,
  last_task-append m.payload messages task event is_task is_event,
)

pub last_message-append :
    (found : Option Published) (messages : List Published) (m : Published)
    → last_message found (messages ++ m ∷ []) ≡ some m
last_message-append found [] m = refl
last_message-append found (n ∷ messages) m = last_message-append (some n) messages m

pub select-append :
    {A : Type 0} (p : A → Bool) (xs : List A) (x : A)
    → select p xs ≡ []
    → p x ≡ true
    → select p (xs ++ x ∷ []) ≡ x ∷ []
select-append p [] x none_yet is_x = ground (arith, is_x)
select-append p (y ∷ xs) x none_yet is_x = elim (Bool-cases (p y)) [
  | inl e ↦ absurd (ground (arith, none_yet, e))
  | inr e ↦ ground (arith, e, none_yet, is_x, select-append p xs x)
]

-- A change of the job's rows that leaves the id is seen in what is selected.
pub select-edit_job :
    (k : ℕ) (f : Job → Job) (jobs : List Job)
    → ((job : Job) → (f job).id ≡ job.id)
    → select (λ (job : Job). nat_eq job.id k) (map (edit_job k f) jobs)
      ≡ map f (select (λ job. nat_eq job.id k) jobs)
select-edit_job k f [] same_id = refl
select-edit_job k f (job ∷ jobs) same_id = elim (Bool-cases (nat_eq job.id k)) [
  | inl e ↦ ground (arith, e, same_id job, select-edit_job k f jobs same_id)
  | inr e ↦ ground (arith, e, select-edit_job k f jobs same_id)
]

-- The one row of a job, through a change of the status
pub select-one_edit :
    (k : ℕ) (f : Job → Job) (jobs : List Job) (row : Job)
    → ((job : Job) → (f job).id ≡ job.id)
    → select (λ (job : Job). nat_eq job.id k) jobs ≡ row ∷ []
    → select (λ (job : Job). nat_eq job.id k) (map (edit_job k f) jobs) ≡ f row ∷ []
select-one_edit k f jobs row same_id one = select-edit_job k f jobs same_id ∙ ap (map f) one

pub select-edit_file :
    (k : ℕ) (f : FileMetaData → FileMetaData) (files : List FileMetaData)
    → ((file : FileMetaData) → (f file).id ≡ file.id)
    → select (λ (file : FileMetaData). nat_eq file.id k) (map (edit_file k f) files)
      ≡ map f (select (λ file. nat_eq file.id k) files)
select-edit_file k f [] same_id = refl
select-edit_file k f (file ∷ files) same_id = elim (Bool-cases (nat_eq file.id k)) [
  | inl e ↦ ground (arith, e, same_id file, select-edit_file k f files same_id)
  | inr e ↦ ground (arith, e, select-edit_file k f files same_id)
]
