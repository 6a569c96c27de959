-- ===== src/Pipeline/Scan.antt =====
-- api/main.py and security_scanner/worker.py: a new upload and the scan of it, when no call fails.
use filo_j.Shared.Rows.{set_job}
use filo_j.Prelude.{
  ℕ, String, ◌≡◌, refl, sym, ap, subst, ◌∙◌, some, [], select, nat_eq, Result, ok, Exec, arith,
  eq_refl, ◌==◌, Bool-cases, inl, inr,
}
use filo_j.Shared.Errors.{Exn}
use filo_j.Shared.Models.{Job, FileMetaData}
use filo_j.Shared.Values.{Json, text, Dict}
use filo_j.Shared.World.{Published, World, quiet}
use filo_j.Shared.Storage.{put_object}
use filo_j.Shared.Webhook.Laws.{webhook_message}
use filo_j.Shared.Message.{decoded}
use filo_j.Api
use filo_j.Api.{UploadFile, DeveloperHeaders, upload_file}
use filo_j.Api.Quiet.{
  key, row_id, file_id, job_row, file_row, job_id, task, event, uploaded, IsNew, upload_file-quiet,
}
use filo_j.SecurityScanner.Frame.{ScanReply, Frame}
use filo_j.SecurityScanner.Worker
use filo_j.SecurityScanner.Worker.{is_clean, mark, is_image, developer_of, on_reply, scan_file}
use filo_j.SecurityScanner.Worker.Quiet.{Answers, scanned, scan_file-quiet}
use filo_j.SecurityScanner.Worker.Verdicts.{CanPublish}
use filo_j.Pipeline.{last_task, delivered, last_task-append, select-append}

-- The upload, then the scan of what it sent
abbrev pub upload_and_scan :
    (api : Api.Libraries) (lib : Worker.Libraries)
    → Exec World Exn ScanReply
    → DeveloperHeaders
    → UploadFile
    → ℕ
    → Frame
    → Result Exn (Unit {0}) × Frame
upload_and_scan api lib scan headers file delivery_count f =
    let w = (upload_file api quiet headers file f.world).1 in
    scan_file lib quiet scan (delivered delivery_count w) (record f { world = w })

module _ (api : Api.Libraries) (lib : Worker.Libraries) (scan : Exec World Exn ScanReply)
    (reply : ScanReply) (headers : DeveloperHeaders) (upload : UploadFile) where
  -- The rows that the upload stores are the only ones with their keys, and the scanner reads the id
  -- of the job as the API writes it.
  pub record IsFresh (w : World) : Type 0 where
    pub new_job : select (λ (row : Job). nat_eq row.id (row_id api headers upload w)) w.jobs ≡ []
    pub new_file :
        select (λ (row : FileMetaData). row.storage_location == key api headers upload) w.files ≡ []
    pub same_uuid :
        lib.parse_uuid (job_id api headers upload w) ≡ some (row_id api headers upload w)

  -- What the scanner makes of the rows and of the message that the upload leaves
  abbrev pub with_rows :
      {R : Type 0} → World → (Job → FileMetaData → Json → String → Dict → Json → ScanReply → R) → R
  with_rows w end =
      end (job_row api headers upload w) (file_row api headers upload w)
        (text (job_id api headers upload w)) (key api headers upload)
        ((task api headers upload w).payload) (text headers.developer_id) reply

  -- What the upload is told by, when the scan or the work is over
  abbrev pub told : String → String → World → Published
  told event status w =
      webhook_message event (lib.show_uuid (file_id api headers upload w)) status
        (lib.scan_data reply) (text headers.developer_id)

  module _ (answers : Answers scan reply) (w : World) (new : IsNew api headers upload w)
      (fresh : IsFresh w) (ready : CanPublish w) where
    -- The world at the answer of ClamAV, after that many calls
    abbrev pub at_answer : ℕ → World
    at_answer =
        scanned lib scan reply answers (job_row api headers upload w)
          (file_row api headers upload w) (job_id api headers upload w) (key api headers upload)
          headers.developer_id (uploaded api headers upload w)

    pub at_answer-CanPublish : (calls : ℕ) → CanPublish (at_answer calls)
    unfolding set_job put_object
    at_answer-CanPublish calls = record {
      to_tasks = ready.to_tasks;
      to_events = ready.to_events;
      to_retry = ready.to_retry;
    }

    abbrev answer : ScanReply → World → Result Exn (Unit {0}) × World
    answer reply =
        on_reply lib quiet (job_row api headers upload w) (file_row api headers upload w)
          (text (job_id api headers upload w)) (key api headers upload)
          ((task api headers upload w).payload) (text headers.developer_id) reply

    developer_of-text :
        developer_of lib quiet scan (text headers.developer_id) (file_row api headers upload w)
        ≡ text headers.developer_id
    developer_of-text = elim (Bool-cases (headers.developer_id == "")) [
      | inl e ↦ rw e refl
      | inr e ↦ rw e refl
    ]

    scanned_task :
        last_task [] (uploaded api headers upload w).published ≡ (task api headers upload w).payload
    unfolding put_object
    scanned_task =
        last_task-append [] w.published (task api headers upload w) (event api headers upload w)
          refl refl

    -- From what the branch of the verdict leaves to the whole run
    pub upload_and_scan-Ends :
        (n : ℕ) (f : Frame)
        → f.world ≡ w
        → (finish : ℕ → World)
        → ((calls : ℕ) → answer reply (at_answer calls) ≡ (ok tt, finish calls))
        → (calls : ℕ) × ((upload_and_scan api lib scan headers upload n f).0 ≡ ok tt)
          × ((upload_and_scan api lib scan headers upload n f).1.world ≡ finish calls)
    unfolding put_object
    upload_and_scan-Ends n f same finish finished =
        let stored = uploaded api headers upload w in
        let run = λ (u : World) (payload : Dict).
          scan_file lib quiet scan (record { body = decoded payload; delivery_count = n })
            (record f { world = u }) in
        subst (λ r. (calls : ℕ) × (r.0 ≡ ok tt) × (r.1.world ≡ finish calls))
          (sym (
            ap (λ u. run u (last_task [] u.published))
              (ap (λ w. (upload_file api quiet headers upload w).1) same
                ∙ ap (λ r. r.1)
                    (upload_file-quiet api headers upload w new ready.to_tasks ready.to_events))
            ∙ ap (run stored) scanned_task))
          (scan_file-quiet lib scan reply answers (job_row api headers upload w)
            (file_row api headers upload w) (job_id api headers upload w) (key api headers upload)
            headers.developer_id stored fresh.same_uuid
            (select-append (λ row. nat_eq row.id (row_id api headers upload w)) w.jobs
              (job_row api headers upload w) fresh.new_job (ground arith))
            (select-append (λ row. row.storage_location == key api headers upload) w.files
              (file_row api headers upload w) fresh.new_file (eq_refl (key api headers upload)))
            ready.to_events (ground (arith, eq_refl (key api headers upload))) finish
            (λ calls.
              ap
                (λ d.
                  on_reply lib quiet (job_row api headers upload w) (file_row api headers upload w)
                    (text (job_id api headers upload w)) (key api headers upload)
                    ((task api headers upload w).payload) d reply (at_answer calls))
                developer_of-text
              ∙ finished calls)
            n f)
