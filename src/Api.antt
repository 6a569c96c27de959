-- ===== src/Api.antt =====
-- api/main.py, api/utils.py and api/dependencies.py: the upload of a file. `pathlib`, `magic`,
-- `hashlib.sha256`, `uuid` and `str.lower` are parameters. The upload is held in memory, so to read
-- it does not fail.
pub mod Laws
pub mod Quiet
pub mod Collision
pub mod Lifespan
pub mod Startup
use Prim.Native.String.{◌++◌ as ◌++ₛ◌}
use filo_j.Prelude.{
  ℕ, zero, suc, String, Bool, true, false, not, ◌&&◌, ◌||◌, Option, none, some, List, [], ◌∷◌, ◌++◌,
  map, elem, select, lookup, Result, ok, err, Exec, pure, raise, raise_if, gets, catch, ltb, nat_eq,
  if◌then◌else◌, ◌==◌, ◌>>=◌, ◌>>◌,
}
use filo_j.Shared.Errors.{Exn, exn, http_exception}
use filo_j.Shared.Config.{allowed_files}
use filo_j.Shared.Models.{Job, FileMetaData}
use filo_j.Shared.Values.{Dict, text, null}
use filo_j.Shared.World.{World, Faults, tick, call}
use filo_j.Shared.Storage.{upload_file as upload_object}
use filo_j.Shared.Broker.{publish}
use filo_j.Shared.Webhook.{is_exception}

pub record Libraries : Type 0 where
  pub suffix : String → String
  pub lower : String → String
  pub from_buffer : List ℕ → String
  pub sha256 : List ℕ → String
  pub is_uuid : String → Bool
  -- The ids of the rows that are flushed when n external calls were made
  pub new_file_id : ℕ → ℕ
  pub new_job_id : ℕ → ℕ
  pub show_uuid : ℕ → String

pub record UploadFile : Type 0 where
  pub filename : String
  pub content_type : Option String
  pub content : List ℕ

pub record DeveloperHeaders : Type 0 where
  pub developer_id : String
  pub plan : String

-- The two answers of `upload_file`.
pub data Uploaded : Type 0 where
  file_exists : String → String → Uploaded
  scheduled : String → String → Uploaded

-- `read(n)` at the start of a file, and what is left to read behind it
abbrev pub take : ℕ → List ℕ → List ℕ
take zero bytes = []
take (suc n) [] = []
take (suc n) (b ∷ bytes) = b ∷ take n bytes

abbrev pub drop : ℕ → List ℕ → List ℕ
drop zero bytes = bytes
drop (suc n) [] = []
drop (suc n) (b ∷ bytes) = drop n bytes

abbrev same_mime : Option String → String → Bool
same_mime none actual_mime = false
same_mime (some claimed_mime) actual_mime = claimed_mime == actual_mime

abbrev pub bucket : String
bucket = "uploads"

-- The statuses of a job that is under way or done
abbrev pub in_use : String → Bool
in_use status = elem status ("scanning" ∷ "processing" ∷ "completed" ∷ "pending" ∷ "clean" ∷ [])

-- `order_by(Job.updated_at.desc())` and `first()`
abbrev pub latest : List Job → Option Job
latest [] = none
latest (job ∷ jobs) = elim (latest jobs) [
  | none ↦ some job
  | some other ↦ if ltb job.updated_at other.updated_at then some other else some job
]

-- The join with `file_metadata` and its conditions
abbrev pub holds_file : String → String → ℕ → List FileMetaData → Bool
holds_file file_hash developer_id id [] = false
holds_file file_hash developer_id id (f ∷ files) =
    (nat_eq f.id id && (f.upload_id == file_hash && f.developer_id == developer_id))
    || holds_file file_hash developer_id id files

module _ (lib : Libraries) where
  unfoldable pub get_file_type : String → String
  get_file_type filename = lib.lower (lib.suffix filename)

  unfoldable pub allowed_file_type : String → Bool
  allowed_file_type filename = elem (get_file_type filename) (map (λ entry. entry.0) allowed_files)

  -- The header that is read here is not read again: the file stays behind its first 2048 bytes.
  unfoldable pub validate_mime : UploadFile → Bool
  validate_mime file = same_mime file.content_type (lib.from_buffer (take 2048 file.content))

  abbrev checked_developer : Option String → Option String → Result Exn DeveloperHeaders
  checked_developer (some developer_id) (some plan) =
      if developer_id == ""
      then err (exn (http_exception 401) "Unauthorized — missing developer id")
      else if plan == ""
      then err (exn (http_exception 401) "Unauthorized — missing plan")
      else if lib.is_uuid developer_id
      then ok (record { developer_id = developer_id; plan = plan })
      else err (exn (http_exception 401) "Invalid developer id")
  checked_developer none plan = err (exn (http_exception 401) "Unauthorized — missing developer id")
  checked_developer (some developer_id) none =
      if developer_id == ""
      then err (exn (http_exception 401) "Unauthorized — missing developer id")
      else err (exn (http_exception 401) "Unauthorized — missing plan")

  unfoldable pub get_developer : (String → Option String) → Result Exn DeveloperHeaders
  get_developer headers = checked_developer (headers "x-developer-id") (headers "x-developer-plan")

  -- The digest is taken from where the file stands.
  unfoldable pub file_hash : UploadFile → String
  file_hash file = lib.sha256 (drop 2048 file.content)

  unfoldable pub file_key : String → String → String
  file_key filename hash = hash ++ₛ get_file_type filename

  module _ (fault : Faults) (developer : DeveloperHeaders) (filename hash : String) where
    -- The latest job of the developer with the file's hash
    unfoldable pub find_job : Exec World Exn (Option Job)
    find_job w = elim (fault w.calls) [
      | some e ↦ (err e, tick w)
      | none ↦ (
        ok (
            latest
              (select (λ job. holds_file hash developer.developer_id job.file_id w.files) w.jobs)),
        tick w,
      )
    ]

    abbrev pub new_file : ℕ → FileMetaData
    new_file calls = record {
      id = lib.new_file_id calls;
      name = filename;
      developer_id = developer.developer_id;
      type = get_file_type filename;
      upload_id = hash;
      storage_location = file_key filename hash;
      bucket = "uploads";
    }

    abbrev pub new_job : ℕ → Job
    new_job calls = record {
      id = lib.new_job_id calls;
      file_id = lib.new_file_id calls;
      status = "pending";
      result_data = null;
      updated_at = calls;
    }

    abbrev pub scan_key : String
    scan_key = "task" ++ₛ (get_file_type filename ++ₛ ".scan")

    abbrev pub task_payload : String → Dict
    task_payload job_id =
        ("job_id", text job_id)
        ∷ ("file_hash", text (file_key filename hash))
        ∷ ("developer_id", text developer.developer_id)
        ∷ []

    abbrev pub event_payload : String → Dict
    event_payload job_id =
        ("job_id", text job_id)
        ∷ ("routing_key", text scan_key)
        ∷ ("service", text "api")
        ∷ ("action", text "file scheduled for scanning")
        ∷ []

    -- Behind the commit: the task of the scanner and the event of the audit log
    unfoldable pub announce : String → Exec World Exn Uploaded
    announce job_id = do
      publish fault "work.tasks" scan_key (task_payload job_id) none
      publish fault "system.events" "event.api.file_uploaded" (event_payload job_id) none
      pure (scheduled job_id (file_key filename hash))

    -- The savepoint opens and is released, then the transaction is committed.
    unfoldable pub store : Exec World Exn Uploaded
    store = do
      upload_object fault (file_key filename hash) bucket none
      call fault (λ w. w)
      calls ← gets (λ w. w.calls)
      call fault (λ w. w)
      call fault (λ w. record w {
        files = w.files ++ new_file calls ∷ [];
        jobs = w.jobs ++ new_job calls ∷ [];
      })
      announce (lib.show_uuid (lib.new_job_id calls))

    abbrev pub unless_in_use : Option Job → Exec World Exn Uploaded
    unless_in_use none = store
    unless_in_use (some job) =
        if in_use job.status then pure (file_exists (lib.show_uuid job.id) job.status) else store

    -- `except Exception`: the rollback may raise too.
    abbrev pub on_error : Exn → Exec World Exn Uploaded
    on_error e =
        if is_exception e.class
        then (call fault (λ w. w) >> raise (exn (http_exception 500) "Internal Server Error"))
        else raise e

    unfoldable pub try_upload : Exec World Exn Uploaded
    try_upload = do existing_job ← find_job; unless_in_use existing_job

  module _ (fault : Faults) (developer : DeveloperHeaders) (file : UploadFile) where
    unfoldable pub upload_file : Exec World Exn Uploaded
    upload_file = do
      raise_if (not (allowed_file_type file.filename))
          (exn (http_exception 400) "File type is invalid")
      raise_if (not (validate_mime file))
          (exn (http_exception 400) "File type mismatch — file content does not match extension")
      catch (try_upload fault developer file.filename (file_hash file))
          (on_error fault developer file.filename (file_hash file))
