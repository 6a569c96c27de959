-- ===== src/ImageProcessor/Worker/Whole.antt =====
-- image_processor/worker.py: what a whole run of `process_image` leaves in the tables and in the bucket
-- of the copies.
use filo_j.Prelude.{
  ℕ, refl, sym, ap, ◌∙◌, ◌≡◌, Option, [], ◌∷◌, select, none, some, map, Result, ok, err, Exec, pure,
  raise, lift, catch, nat_eq, ◌>>=◌, ◌>>◌,
}
use filo_j.Prelude.Rules.{bind-rule, catch-rule, if-rule}
use filo_j.Shared.Errors.{Exn}
use filo_j.Shared.Models.{Job, FileMetaData}
use filo_j.Shared.Values.{Json}
use filo_j.Shared.World.{World, Faults}
use filo_j.Shared.World.Laws.{call-then}
use filo_j.Shared.Rows.{edit_job, edit_file, select_one, select_first, first_row}
use filo_j.Shared.Storage.{processed_bucket}
use filo_j.ImageProcessor.Rotation.{Pillow}
use filo_j.ImageProcessor.Worker.{Libraries, publish_audit, with_status}
use filo_j.ImageProcessor.Worker.Copies.{SameTables, SameTables-trans}
use filo_j.ImageProcessor.Worker.{
  uuid_of, sliced, with_file, with_job, image_block, failure_action, on_image_error, parse,
  process_parsed, process_image, Verdict, handled, discarded, is_memory_error, is_cancelled,
}
use filo_j.Shared.Rows.Laws.{select_one-FindsOne, select_first-FindsFirst, FindsOne, FindsFirst}
use filo_j.Shared.Webhook.{is_exception}
use filo_j.Shared.Message.{Message, is_malformed}
use filo_j.ImageProcessor.Worker.Laws.{
  IsNamed, Progress, idle, taken, done, audit-Progress, with_file-Progress,
}

module _ (p : Pillow) (lib : Libraries p) (fault : Faults) where
  IsNamed-from :
      (k : Option ℕ) (job : Job) (file : FileMetaData) (w w1 : World)
      → SameTables w w1
      → IsNamed p lib fault k job file w1
      → IsNamed p lib fault k job file w
  IsNamed-from k job file w w1 same n = record {
    id = n.id;
    named = n.named;
    job_found = ap (select (λ (row : Job). nat_eq row.id n.id)) (sym same.0) ∙ n.job_found;
    file_found =
        ap (λ rows. first_row (select (λ (row : FileMetaData). nat_eq row.id job.file_id) rows))
          (sym same.1)
        ∙ n.file_found;
  }

  Progress-from :
      (k : Option ℕ) (w w1 w2 : World)
      → SameTables w w1
      → Progress p lib fault k w1 w2
      → Progress p lib fault k w w2
  Progress-from k w w1 w2 same (idle same') = idle (SameTables-trans w w1 w2 same same')
  Progress-from k w w1 w2 same (taken job file n jobs files) =
      taken job file (IsNamed-from k job file w w1 same n)
        (jobs ∙ ap (map (edit_job job.id (with_status p lib fault "processing"))) same.0)
        (files ∙ same.1)
  Progress-from k w w1 w2 same (done job file n jobs files stored) =
      done job file (IsNamed-from k job file w w1 same n)
        (jobs
          ∙ ap
              (λ rows.
                map (edit_job job.id (with_status p lib fault "completed"))
                  (map (edit_job job.id (with_status p lib fault "processing")) rows))
              same.0)
        (files
          ∙ ap (map (edit_file file.id (λ row. record row { bucket = processed_bucket }))) same.1)
        stored

  with_job-Progress :
      (k : Option ℕ) (id : ℕ) (job_id file_key : Json) (job : Job) (w : World)
      → k ≡ some id
      → select (λ (row : Job). nat_eq row.id id) w.jobs ≡ job ∷ []
      → Progress p lib fault k w (with_job p lib fault job_id file_key (some job) w).1
  with_job-Progress k id job_id file_key job w named found =
      let test = λ (file : FileMetaData). nat_eq file.id job.file_id in
      let find = select_first fault (λ w. w.files) test in
      bind-rule (λ r. Progress p lib fault k w r.1)
        (λ r. SameTables w r.1 × FindsFirst test w.files r.0) (find w)
        (with_file p lib fault job job_id file_key) w
        (let rows = select_first-FindsFirst fault (λ w. w.files) test w in
          ((rows.0.0, rows.0.1), rows.1))
        (λ _ w1 h. idle h.0)
        (λ file w1 h.
          Progress-from k w w1 (with_file p lib fault job job_id file_key file w1).1 h.0 (
            with_file-Progress p lib fault k job job_id file_key file w1 (λ f is_file. record {
              id = id;
              named = named;
              job_found = ap (select (λ (row : Job). nat_eq row.id id)) h.0.0 ∙ found;
              file_found = ap (λ rows. first_row (select test rows)) h.0.1 ∙ (h.1 ∙ is_file);
            })))

  -- The job that a message is about, if it names one
  abbrev key_of_id : Result Exn ℕ → Option ℕ
  key_of_id (ok id) = some id
  key_of_id (err e) = none

  abbrev parsed_key : Result Exn (Json × Json) → Option ℕ
  parsed_key (ok (job_id, file_key)) = key_of_id (uuid_of p lib fault job_id)
  parsed_key (err e) = none

  abbrev pub job_key : Message → Option ℕ
  job_key message = parsed_key (parse p lib fault message.body)

  image_block-Progress :
      (k : Option ℕ) (job_id file_key : Json) (w : World)
      → k ≡ key_of_id (uuid_of p lib fault job_id)
      → Progress p lib fault k w (image_block p lib fault job_id file_key w).1
  unfolding image_block
  image_block-Progress k job_id file_key w is_key = named (uuid_of p lib fault job_id) is_key
    where
      named :
          (x : Result Exn ℕ)
          → k ≡ key_of_id x
          → Progress p lib fault k w
              ((lift x >>= λ id.
                  select_one fault (λ w. w.jobs) (λ job. nat_eq job.id id)
                  >>= with_job p lib fault job_id file_key)
                w).1
      named (err e) h = idle (refl, refl)
      named (ok id) h =
          let test = λ (job : Job). nat_eq job.id id in
          bind-rule (λ r. Progress p lib fault k w r.1)
            (λ r. SameTables w r.1 × FindsOne test w.jobs r.0)
            (select_one fault (λ w. w.jobs) test w) (with_job p lib fault job_id file_key) w
            (let rows = select_one-FindsOne fault (λ w. w.jobs) test w in
              ((rows.0.0, rows.0.1), rows.1))
            (λ _ w1 found. idle found.0) (with_found id h)
        where
          with_found :
              (id : ℕ)
              → k ≡ some id
              → (job : Option Job) (w1 : World)
              → SameTables w w1 × FindsOne (λ (job : Job). nat_eq job.id id) w.jobs (ok job)
              → Progress p lib fault k w (with_job p lib fault job_id file_key job w1).1
          with_found id h none w1 found = idle found.0
          with_found id h (some job) w1 found =
              Progress-from k w w1 (with_job p lib fault job_id file_key (some job) w1).1 found.0 (
                with_job-Progress k id job_id file_key job w1 h
                  (ap (select (λ (row : Job). nat_eq row.id id)) found.0.0 ∙ found.1))

  -- Each `except` clause at most publishes an audit event.
  on_image_error-Progress :
      (k : Option ℕ) (job_id : Json) (n : ℕ) (e : Exn) (w w1 : World)
      → Progress p lib fault k w w1
      → Progress p lib fault k w (on_image_error p lib fault job_id n e w1).1
  unfolding on_image_error
  on_image_error-Progress k job_id n e w w1 prog =
      let audit = publish_audit p lib fault job_id "event.image_process.fail" in
      if-rule (λ (m : Exec World Exn (Unit {0})). Progress p lib fault k w (m w1).1)
        (is_memory_error e.class) _ _
        (λ _.
          logged (audit "Memory Error , processing failed") (sliced p lib fault job_id)
            (audit-Progress p lib fault k job_id _ _ w w1 prog))
        (λ _.
          if-rule (λ (m : Exec World Exn (Unit {0})). Progress p lib fault k w (m w1).1)
            (is_cancelled e.class) _ _ (λ _. prog)
            (λ _.
              if-rule (λ (m : Exec World Exn (Unit {0})). Progress p lib fault k w (m w1).1)
                (is_exception e.class) _ _
                (λ _.
                  logged (audit (failure_action p lib fault e n) >> raise e)
                    (sliced p lib fault job_id)
                    (bind-rule (λ r. Progress p lib fault k w r.1)
                      (λ r. Progress p lib fault k w r.1)
                      (audit (failure_action p lib fault e n) w1) (λ _. raise e) w1
                      (audit-Progress p lib fault k job_id _ _ w w1 prog) (λ _ w2 h. h)
                      (λ _ w2 h. h)))
                (λ _. prog)))
    where
      logged :
          (m : Exec World Exn (Unit {0})) (x : Result Exn (Unit {0}))
          → Progress p lib fault k w (m w1).1
          → Progress p lib fault k w ((lift x >> m) w1).1
      logged m (err e) h = prog
      logged m (ok _) h = h

  parsed-Progress :
      (k : Option ℕ) (n : ℕ) (x : Result Exn (Json × Json)) (w : World)
      → k ≡ parsed_key x
      → Progress p lib fault k w (process_parsed p lib fault n x w).1
  parsed-Progress k n (err e) w h =
      if-rule (λ (m : Exec World Exn Verdict). Progress p lib fault k w (m w).1)
        (is_malformed e.class) _ _
        (λ _.
          call-then (λ r. Progress p lib fault k w r.1) fault (λ w. w) (pure discarded) w
            (λ _. idle (refl, refl)) (idle (refl, refl)))
        (λ _. idle (refl, refl))
  parsed-Progress k n (ok (job_id, file_key)) w h =
      bind-rule (λ r. Progress p lib fault k w r.1) (λ r. Progress p lib fault k w r.1)
        (catch (image_block p lib fault job_id file_key) (on_image_error p lib fault job_id n) w)
        (λ _. pure handled) w
        (catch-rule (λ r. Progress p lib fault k w r.1) (λ r. Progress p lib fault k w r.1)
          (image_block p lib fault job_id file_key w) (on_image_error p lib fault job_id n) w
          (image_block-Progress k job_id file_key w h)
          (λ e w1 prog. on_image_error-Progress k job_id n e w w1 prog) (λ _ w1 prog. prog))
        (λ _ w1 prog. prog) (λ _ w1 prog. prog)

  -- Whatever the message holds and whichever calls fail, a run of `process_image` leaves the rows as
  -- they were, or marks the one job whose id the message names as `processing`, or marks it as
  -- `completed` and moves the file that it refers to to the bucket of the copies; and then this bucket
  -- holds all six copies of this file, in three sizes and two formats. No other row changes.
  pub process_image-Progress :
      (message : Message) (w : World)
      → Progress p lib fault (job_key message) w (process_image p lib fault message w).1
  unfolding process_image
  process_image-Progress message w =
      parsed-Progress (job_key message) message.delivery_count (parse p lib fault message.body) w
        refl
