-- ===== src/Api/Laws.antt =====
-- What an upload leaves behind, whichever call fails.
use filo_j.Prelude.{
  ℕ, String, ◌≡◌, ◌⊎◌, inl, inr, refl, ap, ◌∙◌, true, Option, none, some, List, [], ◌∷◌, ◌++◌,
  Result, ok, err, Exec, pure, raise, gets, catch, Bool-cases, ◌>>=◌, ◌>>◌, arith,
}
use filo_j.Shared.Errors.{Exn, exn, http_exception}
use filo_j.Shared.Models.{Job, FileMetaData}
use filo_j.Shared.Values.{Dict}
use filo_j.Shared.World.{Published, World, Faults, tick, call}
use filo_j.Shared.Storage.{put_object, upload_file as upload_object}
use filo_j.Shared.World.Laws.{call-then}
use filo_j.Shared.Broker.{publish}
use filo_j.Shared.Broker.Laws.{Publishes, publish-Publishes}
use filo_j.Shared.Webhook.{is_exception}
use filo_j.Api.{
  Libraries, UploadFile, DeveloperHeaders, Uploaded, file_exists, scheduled, in_use, validate_mime,
  file_hash, file_key, allowed_file_type, find_job, new_file, new_job, announce, scan_key,
  task_payload, event_payload, bucket, store, unless_in_use, on_error, try_upload, upload_file,
}

-- The rows and the messages of two states are the same.
abbrev pub SameRows : World → World → Type 0
SameRows w w' = (w'.jobs ≡ w.jobs) × (w'.files ≡ w.files) × (w'.published ≡ w.published)

-- A pending job and its file are there, and nothing else is new.
abbrev pub HasRows : World → World → Type 0
HasRows w w' =
    (job : Job) × (file : FileMetaData) × (job.file_id ≡ file.id)
    × (job.status ≡ "pending")
    × (w'.jobs ≡ w.jobs ++ job ∷ [])
    × (w'.files ≡ w.files ++ file ∷ [])

-- What an upload has done by the way it ended: it found a job and changed nothing; or it added a
-- pending job with its file, and published the task and the event; or it failed, before the commit,
-- behind it, or between the two messages.
abbrev pub Uploads : World → Result Exn Uploaded × World → Type 0
Uploads w (ok (file_exists id status), w') = SameRows w w' × (in_use status ≡ true)
Uploads w (ok (scheduled id key), w') =
    HasRows w w'
    × ((task : Published) × (event : Published) × (task.exchange ≡ "work.tasks")
        × (event.exchange ≡ "system.events")
        × (w'.published ≡ (w.published ++ task ∷ []) ++ event ∷ []))
Uploads w (err e, w') =
    SameRows w w'
    ⊎ (HasRows w w'
        × ((w'.published ≡ w.published)
            ⊎ ((task : Published) × (task.exchange ≡ "work.tasks")
                × (w'.published ≡ w.published ++ task ∷ []))))

HasRows-step :
    (w w1 w2 : World) → HasRows w w1 → w2.jobs ≡ w1.jobs → w2.files ≡ w1.files → HasRows w w2
HasRows-step w w1 w2 (job, file, of_file, pending, jobs, files) j f =
    (job, file, of_file, pending, j ∙ jobs, f ∙ files)

-- A publish of `m` leaves the rows alone.
abbrev PublishesOnly : World → Published → Result Exn (Unit {0}) × World → Type 0
PublishesOnly w m r = Publishes w m r × (r.1.jobs ≡ w.jobs) × (r.1.files ≡ w.files)

publish-PublishesOnly :
    (fault : Faults) (x k : String) (p : Dict) (h : Option (List (String × ℕ))) (w : World)
    → PublishesOnly w
        (record { exchange = x; routing_key = k; payload = p; headers = h })
        (publish fault x k p h w)
unfolding publish
publish-PublishesOnly fault x k p h w =
    (publish-Publishes fault x k p h w, ground arith, ground arith)

-- A publish, then the rest
publish-then :
    {A : Type 0} (P : Result Exn A × World → Type 0) (r : Result Exn (Unit {0}) × World)
    (rest : Exec World Exn A) (w : World) (m : Published)
    → PublishesOnly w m r
    → ((e : Exn) (w' : World)
        → w'.published ≡ w.published
        → w'.jobs ≡ w.jobs
        → w'.files ≡ w.files
        → P (err e, w'))
    → ((w' : World)
        → w'.published ≡ w.published ++ m ∷ []
        → w'.jobs ≡ w.jobs
        → w'.files ≡ w.files
        → P (rest w'))
    → P (((λ (_ : World). r) >> rest) w)
publish-then P (ok tt, w') rest w m p failed passed = passed w' p.0.0 p.1 p.2
publish-then P (err e, w') rest w m p failed passed = failed e w' p.0.0 p.1 p.2

module _ (lib : Libraries) (fault : Faults) (developer : DeveloperHeaders)
    (filename hash : String) where
  announce-Uploads :
      (w0 w : World) (job_id : String)
      → HasRows w0 w
      → w.published ≡ w0.published
      → Uploads w0 (announce lib fault developer filename hash job_id w)
  unfolding announce
  announce-Uploads w0 w job_id rows same =
      let task_k = scan_key lib fault developer filename hash in
      let task_p = task_payload lib fault developer filename hash job_id in
      let event_k : String = "event.api.file_uploaded" in
      let event_p = event_payload lib fault developer filename hash job_id in
      let task : Published = record {
        exchange = "work.tasks";
        routing_key = task_k;
        payload = task_p;
        headers = none;
      } in
      let event : Published = record {
        exchange = "system.events";
        routing_key = event_k;
        payload = event_p;
        headers = none;
      } in
      let answer : Exec World Exn Uploaded = pure (scheduled job_id (file_key lib filename hash)) in
      publish-then (Uploads w0) (publish fault "work.tasks" task_k task_p none w)
        (publish fault "system.events" event_k event_p none >> answer) w task
        (publish-PublishesOnly fault "work.tasks" task_k task_p none w)
        (λ e w' p j f. inr (HasRows-step w0 w w' rows j f, inl (p ∙ same)))
        (λ w1 p j f.
          let sent = p ∙ ap (λ ms. ms ++ task ∷ []) same in
          let rows1 = HasRows-step w0 w w1 rows j f in
          publish-then (Uploads w0) (publish fault "system.events" event_k event_p none w1) answer
            w1 event (publish-PublishesOnly fault "system.events" event_k event_p none w1)
            (λ e w' p' j' f'. inr (HasRows-step w0 w1 w' rows1 j' f', inr (task, refl, p' ∙ sent)))
            (λ w' p' j' f'. (
              HasRows-step w0 w1 w' rows1 j' f',
              (task, event, refl, refl, p' ∙ ap (λ ms. ms ++ event ∷ []) sent),
            )))

  store-Uploads :
      (w0 w : World) → SameRows w0 w → Uploads w0 (store lib fault developer filename hash w)
  unfolding store upload_object put_object
  store-Uploads w0 w same =
      let put : World → World = put_object bucket (file_key lib filename hash) in
      let w1 = put (tick w) in
      let w2 = tick w1 in
      let w3 = tick w2 in
      let calls = w2.calls in
      let commit : ℕ → World → World = λ calls w. record w {
        files = w.files ++ new_file lib fault developer filename hash calls ∷ [];
        jobs = w.jobs ++ new_job lib fault developer filename hash calls ∷ [];
      } in
      let told : ℕ → Exec World Exn Uploaded = λ calls.
        announce lib fault developer filename hash (lib.show_uuid (lib.new_job_id calls)) in
      let committed : ℕ → Exec World Exn Uploaded =
        λ calls. call fault (commit calls) >> told calls in
      let flushed : Exec World Exn Uploaded =
        gets (λ w. w.calls) >>= λ calls. call fault (λ w. w) >> committed calls in
      let rows : HasRows w0 (commit calls (tick w3)) = (
        new_job lib fault developer filename hash calls,
        new_file lib fault developer filename hash calls,
        refl,
        refl,
        ap (λ xs. xs ++ new_job lib fault developer filename hash calls ∷ []) same.0,
        ap (λ xs. xs ++ new_file lib fault developer filename hash calls ∷ []) same.1,
      ) in
      call-then (Uploads w0) fault put (call fault (λ w. w) >> flushed) w (λ e. inl same)
        (call-then (Uploads w0) fault (λ w. w) flushed w1 (λ e. inl same)
          (call-then (Uploads w0) fault (λ w. w) (committed calls) w2 (λ e. inl same)
            (call-then (Uploads w0) fault (commit calls) (told calls) w3 (λ e. inl same)
              (announce-Uploads w0 (commit calls (tick w3)) (lib.show_uuid (lib.new_job_id calls))
                rows same.2))))

  -- The rollback of `except Exception` changes no row.
  on_error-Uploads :
      (e : Exn) (w0 w : World)
      → Uploads w0 (err e, w)
      → Uploads w0 (on_error lib fault developer filename hash e w)
  on_error-Uploads e w0 w h = elim (Bool-cases (is_exception e.class)) [
    | inr x ↦ rw x h
    | inl x ↦ rw x (
        call-then (Uploads w0) fault (λ w. w)
          (raise (exn (http_exception 500) "Internal Server Error")) w (λ e'. h) h)
  ]

  unless_in_use-Uploads :
      (found : Option Job) (w0 w : World)
      → SameRows w0 w
      → Uploads w0 (unless_in_use lib fault developer filename hash found w)
  unless_in_use-Uploads none w0 w same = store-Uploads w0 w same
  unless_in_use-Uploads (some job) w0 w same = elim (Bool-cases (in_use job.status)) [
    | inl e ↦ rw e (same, e)
    | inr e ↦ rw e (store-Uploads w0 w same)
  ]

  found-Uploads :
      (w0 : World) (r : Result Exn (Option Job) × World)
      → SameRows w0 r.1
      → Uploads w0 (((λ (_ : World). r) >>= unless_in_use lib fault developer filename hash) w0)
  found-Uploads w0 (ok found, w) same = unless_in_use-Uploads found w0 w same
  found-Uploads w0 (err e, w) same = inl same

  find_job-SameRows : (w : World) → SameRows w (find_job lib fault developer filename hash w).1
  unfolding find_job
  find_job-SameRows w = (ground arith, ground arith, ground arith)

  try_upload-Uploads : (w : World) → Uploads w (try_upload lib fault developer filename hash w)
  unfolding try_upload
  try_upload-Uploads w =
      found-Uploads w (find_job lib fault developer filename hash w) (find_job-SameRows w)

  caught-Uploads :
      (w : World) (r : Result Exn Uploaded × World)
      → Uploads w r
      → Uploads w (catch (λ _. r) (on_error lib fault developer filename hash) w)
  caught-Uploads w (ok u, w') h = h
  caught-Uploads w (err e, w') h = on_error-Uploads e w w' h

module _ (lib : Libraries) (fault : Faults) (developer : DeveloperHeaders) (file : UploadFile) where
  -- Whichever call fails, an upload has either changed neither rows nor messages, or has added one
  -- pending job with its file. If it answers that the file is scheduled, the task and the event are
  -- published; if it answers that the file exists, nothing has changed. But if it fails behind the
  -- commit, the pending job stays, without a task or without the event.
  pub upload_file-Uploads : (w : World) → Uploads w (upload_file lib fault developer file w)
  unfolding upload_file
  upload_file-Uploads w = elim (Bool-cases (allowed_file_type lib file.filename)) [
    | inr e ↦ rw e (inl (refl, refl, refl))
    | inl e ↦ elim (Bool-cases (validate_mime lib file)) [
      | inr e' ↦ rw (e, e') (inl (refl, refl, refl))
      | inl e' ↦
          rw (e, e')
            (caught-Uploads lib fault developer file.filename (file_hash lib file) w
              (try_upload lib fault developer file.filename (file_hash lib file) w)
              (try_upload-Uploads lib fault developer file.filename (file_hash lib file) w))
    ]
  ]
