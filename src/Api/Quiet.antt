-- ===== src/Api/Quiet.antt =====
-- api/main.py: the upload of a new file if no call fails.
use filo_j.Prelude.{
  ℕ, suc, String, ◌≡◌, refl, ap, ◌∙◌, true, not, none, [], ◌∷◌, ◌++◌, select, ok, Exec, pure,
  raise_if, catch, ◌>>=◌, ◌>>◌,
}
use filo_j.Prelude.Rules.{bind-ok, raise_if-passed}
use filo_j.Shared.Errors.{Exn, exn, http_exception}
use filo_j.Shared.Models.{Job, FileMetaData}
use filo_j.Shared.World.{Published, World, tick, quiet}
use filo_j.Shared.Storage.{put_object, upload_file as upload_object}
use filo_j.Shared.Broker.{publish}
use filo_j.Shared.Quiet.{sent, IsOpen, publish-quiet}
use filo_j.Api.{
  Libraries, UploadFile, DeveloperHeaders, Uploaded, scheduled, latest, holds_file, bucket,
  validate_mime, file_hash, file_key, allowed_file_type, find_job, new_file, new_job, announce,
  scan_key, task_payload, event_payload, store, unless_in_use, on_error, try_upload, upload_file,
}

module _ (lib : Libraries) (developer : DeveloperHeaders) (file : UploadFile) where
  abbrev pub hash : String
  hash = file_hash lib file

  abbrev pub key : String
  key = file_key lib file.filename hash

  -- The number of calls when the rows are flushed, which fixes their ids
  abbrev pub flushed_at : World → ℕ
  flushed_at w = suc (suc (suc w.calls))

  -- The ids of the rows
  abbrev pub row_id : World → ℕ
  row_id w = lib.new_job_id (flushed_at w)

  abbrev pub file_id : World → ℕ
  file_id w = lib.new_file_id (flushed_at w)

  abbrev pub job_row : World → Job
  job_row w = new_job lib quiet developer file.filename hash (flushed_at w)

  abbrev pub file_row : World → FileMetaData
  file_row w = new_file lib quiet developer file.filename hash (flushed_at w)

  abbrev pub job_id : World → String
  job_id w = lib.show_uuid (lib.new_job_id (flushed_at w))

  abbrev pub task : World → Published
  task w = record {
    exchange = "work.tasks";
    routing_key = scan_key lib quiet developer file.filename hash;
    payload = task_payload lib quiet developer file.filename hash (job_id w);
    headers = none;
  }

  abbrev pub event : World → Published
  event w = record {
    exchange = "system.events";
    routing_key = "event.api.file_uploaded";
    payload = event_payload lib quiet developer file.filename hash (job_id w);
    headers = none;
  }

  abbrev flushed : World → World
  flushed w = tick (tick (put_object bucket key (tick (tick w))))

  abbrev committed : World → World
  committed w =
      let w4 = tick (flushed w) in
      record w4 { files = w4.files ++ file_row w ∷ []; jobs = w4.jobs ++ job_row w ∷ [] }

  -- The world after the upload
  abbrev pub uploaded : World → World
  uploaded w = sent (event w) (sent (task w) (committed w))

  -- Is the file a new one, of an allowed type?
  pub record IsNew (w : World) : Type 0 where
    pub allowed : allowed_file_type lib file.filename ≡ true
    pub matches : validate_mime lib file ≡ true
    pub unknown :
        select (λ (job : Job). holds_file hash developer.developer_id job.file_id w.files) w.jobs
        ≡ []

  store-quiet :
      (w : World)
      → IsOpen "work.tasks" w
      → IsOpen "system.events" w
      → store lib quiet developer file.filename hash (tick w)
        ≡ (ok (scheduled (job_id w) key), uploaded w)
  unfolding store upload_object put_object announce
  store-quiet w to_tasks to_events =
      let answer : Exec World Exn Uploaded = pure (scheduled (job_id w) key) in
      bind-ok
        (publish quiet "work.tasks" (scan_key lib quiet developer file.filename hash)
          ((task w).payload) none (committed w))
        (λ _.
          publish quiet "system.events" "event.api.file_uploaded" ((event w).payload) none
          >> answer)
        (committed w) (sent (task w) (committed w)) tt
        (publish-quiet "work.tasks" (scan_key lib quiet developer file.filename hash)
          ((task w).payload) none (committed w) to_tasks)
        (bind-ok
          (publish quiet "system.events" "event.api.file_uploaded" ((event w).payload) none
            (sent (task w) (committed w)))
          (λ _. answer) (sent (task w) (committed w)) (uploaded w) tt
          (publish-quiet "system.events" "event.api.file_uploaded" ((event w).payload) none
            (sent (task w) (committed w)) to_events)
          refl)

  pub upload_file-quiet :
      (w : World)
      → IsNew w
      → IsOpen "work.tasks" w
      → IsOpen "system.events" w
      → upload_file lib quiet developer file w ≡ (ok (scheduled (job_id w) key), uploaded w)
  unfolding upload_file try_upload find_job
  upload_file-quiet w new to_tasks to_events =
      let body = try_upload lib quiet developer file.filename hash in
      let handler = on_error lib quiet developer file.filename hash in
      raise_if-passed (not (allowed_file_type lib file.filename))
        (exn (http_exception 400) "File type is invalid")
        (raise_if (not (validate_mime lib file))
            (exn (http_exception 400) "File type mismatch — file content does not match extension")
          >> catch body handler)
        w (ap not new.allowed)
      ∙ (raise_if-passed (not (validate_mime lib file))
            (exn (http_exception 400) "File type mismatch — file content does not match extension")
            (catch body handler) w (ap not new.matches)
          ∙ (ap
                (λ jobs.
                  catch
                    ((λ (w : World). (ok (latest jobs), tick w))
                      >>= unless_in_use lib quiet developer file.filename hash)
                    handler w)
                new.unknown
              ∙ ap (λ r. catch (λ (_ : World). r) handler w) (store-quiet w to_tasks to_events)))
