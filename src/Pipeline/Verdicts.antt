-- ===== src/Pipeline/Verdicts.antt =====
-- api/main.py and security_scanner/worker.py: what becomes of a new upload by the answer of ClamAV, when
-- no call fails.
use filo_j.Prelude.{
  ℕ, String, ◌≡◌, refl, ap, ◌∙◌, true, false, none, [], ◌∷◌, map, select, nat_eq, Exec, arith,
  eq_refl,
}
use filo_j.Shared.Errors.{Exn}
use filo_j.Shared.Models.{Job}
use filo_j.Shared.Values.{text}
use filo_j.Shared.World.{World, quiet}
use filo_j.Shared.Rows.{edit_job, set_job, set_file}
use filo_j.Shared.Storage.{upload_bucket, quarantine_bucket, has_object, put_object, remove_object}
use filo_j.Shared.Storage.Laws.{has_object-select}
use filo_j.Api
use filo_j.Api.{UploadFile, DeveloperHeaders, upload_file}
use filo_j.Api.Quiet.{key, row_id, job_row, file_row, job_id, task, uploaded, IsNew}
use filo_j.SecurityScanner.Frame.{ScanReply, Frame}
use filo_j.SecurityScanner.Worker
use filo_j.SecurityScanner.Worker.{is_clean, mark, is_image, developer_of, on_reply, scan_file}
use filo_j.SecurityScanner.Worker.Quiet.{Answers}
use filo_j.SecurityScanner.Worker.Verdicts.{
  quarantined_rows, completed_rows, CanPublish, IsStrip, quarantined_end, completed_end,
  on_reply_infected, on_reply_clean,
}
use filo_j.Pipeline.{
  last_message, statuses, Finishes, stored_in, last_message-append, select-append, select-one_edit,
}
use filo_j.Pipeline.Scan.{
  IsFresh, told, with_rows, at_answer, at_answer-CanPublish, upload_and_scan, upload_and_scan-Ends,
}

module _ (api : Api.Libraries) (lib : Worker.Libraries) (scan : Exec World Exn ScanReply)
    (reply : ScanReply) (headers : DeveloperHeaders) (upload : UploadFile) where
  -- The row of the job when the scan has begun, and with the verdict of ClamAV
  abbrev pub scanning : Job → Job
  scanning row = record row { status = "scanning" }

  abbrev pub marked_as : String → Job → Job
  marked_as status = mark lib quiet status (lib.scan_data reply)

  module _ (answers : Answers scan reply) (words : IsStrip lib.strip) (n : ℕ) (f : Frame)
      (new : IsNew api headers upload f.world)
      (fresh : IsFresh api lib scan reply headers upload f.world) (ready : CanPublish f.world) where
    one_job :
        select
          (λ (row : Job). nat_eq row.id (row_id api headers upload f.world))
          (uploaded api headers upload f.world).jobs
        ≡ job_row api headers upload f.world ∷ []
    unfolding put_object
    one_job =
        select-append (λ row. nat_eq row.id (row_id api headers upload f.world)) f.world.jobs
          (job_row api headers upload f.world) fresh.new_job (ground arith)

    pub marked_job :
        (status : String)
        → select
            (λ (row : Job). nat_eq row.id (row_id api headers upload f.world))
            (map (edit_job (row_id api headers upload f.world) (marked_as status)) (
              map
                (edit_job (row_id api headers upload f.world) scanning)
                (uploaded api headers upload f.world).jobs))
          ≡ marked_as status (scanning (job_row api headers upload f.world)) ∷ []
    marked_job status =
        select-one_edit (row_id api headers upload f.world) (marked_as status)
          (map (edit_job (row_id api headers upload f.world) scanning)
            (uploaded api headers upload f.world).jobs)
          (scanning (job_row api headers upload f.world)) (λ job. refl)
          (select-one_edit (row_id api headers upload f.world) scanning
            (uploaded api headers upload f.world).jobs (job_row api headers upload f.world)
            (λ job. refl) one_job)

    -- A new upload that ClamAV finds infected, when no call fails: the scan of the message that the upload
    -- sent returns, the job ends as `quarantined`, the object is in quarantine and no longer among the
    -- uploads, and the last message is the webhook event `event.job.quarantined`. The ids and the key of
    -- the upload are new, and the scanner reads an id as the API writes it.
    pub upload_and_scan_infected :
        is_clean reply ≡ false
        → Finishes
            (row_id api headers upload f.world)
            "quarantined"
            (told api lib scan reply headers upload "event.job.quarantined" "infected" f.world)
            (upload_and_scan api lib scan headers upload n f)
          × (stored_in quarantine_bucket
                (key api headers upload)
                (upload_and_scan api lib scan headers upload n f)
              ≡ true)
          × (stored_in upload_bucket
                (key api headers upload)
                (upload_and_scan api lib scan headers upload n f)
              ≡ false)
    unfolding set_job set_file put_object remove_object
    upload_and_scan_infected unclean =
        let w = f.world in
        let finish = λ (calls : ℕ).
          with_rows api lib scan reply headers upload w (quarantined_end lib words)
            (at_answer api lib scan reply headers upload answers w new fresh ready calls) in
        let rows = λ (calls : ℕ).
          with_rows api lib scan reply headers upload w (quarantined_rows lib words)
            (at_answer api lib scan reply headers upload answers w new fresh ready calls) in
        let (calls, returned, world) =
          upload_and_scan-Ends api lib scan reply headers upload answers w new fresh ready n f refl
            finish
            (λ calls.
              on_reply_infected lib words (job_row api headers upload w)
                (file_row api headers upload w) (text (job_id api headers upload w))
                (key api headers upload) ((task api headers upload w).payload)
                (text headers.developer_id) reply
                (at_answer api lib scan reply headers upload answers w new fresh ready calls)
                (at_answer-CanPublish api lib scan reply headers upload answers w new fresh ready
                  calls)
                unclean (ground (arith, eq_refl (key api headers upload)))) in
        (
          (
            returned,
            ap (λ (w : World). statuses (row_id api headers upload f.world) w.jobs) world
                ∙ ap (map (λ job. job.status)) (
                    select-one_edit (row_id api headers upload f.world)
                      (λ row. record row { status = "quarantined" }) _
                      (marked_as "infected" (scanning (job_row api headers upload f.world)))
                      (λ job. refl) (marked_job "infected")),
            ap (λ (w : World). last_message none w.published) world
                ∙ last_message-append none (rows calls).published
                    (told api lib scan reply headers upload "event.job.quarantined" "infected" w),
          ),
          ap (λ (w : World). has_object quarantine_bucket (key api headers upload) w.objects) world
              ∙ ground (arith, eq_refl (key api headers upload)),
          ap (λ (w : World). has_object upload_bucket (key api headers upload) w.objects) world
              ∙ has_object-select upload_bucket (key api headers upload) upload_bucket
                  (key api headers upload)
                  ((quarantine_bucket, key api headers upload)
                    ∷ (upload_bucket, key api headers upload)
                    ∷ w.objects)
              ∙ ground (arith, eq_refl (key api headers upload)),
        )

    -- A new upload that ClamAV finds clean and that is no image, when no call fails: the scan of the
    -- message that the upload sent returns, the job ends as `completed`, the object is still among the
    -- uploads, and the last message is the webhook event `event.job.completed`. The ids and the key of the
    -- upload are new, and the scanner reads an id as the API writes it.
    pub upload_and_scan_completed :
        is_clean reply ≡ true
        → is_image (file_row api headers upload f.world) ≡ false
        → Finishes
            (row_id api headers upload f.world)
            "completed"
            (told api lib scan reply headers upload "event.job.completed" "completed" f.world)
            (upload_and_scan api lib scan headers upload n f)
          × (stored_in upload_bucket
                (key api headers upload)
                (upload_and_scan api lib scan headers upload n f)
              ≡ true)
    unfolding set_job put_object
    upload_and_scan_completed clean other =
        let w = f.world in
        let rows = λ (calls : ℕ).
          with_rows api lib scan reply headers upload w (completed_rows lib words)
            (at_answer api lib scan reply headers upload answers w new fresh ready calls) in
        let finish = λ (calls : ℕ).
          with_rows api lib scan reply headers upload w (completed_end lib words)
            (at_answer api lib scan reply headers upload answers w new fresh ready calls) in
        let (calls, returned, world) =
          upload_and_scan-Ends api lib scan reply headers upload answers w new fresh ready n f refl
            finish
            (λ calls.
              on_reply_clean lib words (job_row api headers upload w)
                (file_row api headers upload w) (text (job_id api headers upload w))
                (key api headers upload) ((task api headers upload w).payload)
                (text headers.developer_id) reply
                (at_answer api lib scan reply headers upload answers w new fresh ready calls)
                (at_answer-CanPublish api lib scan reply headers upload answers w new fresh ready
                  calls)
                clean other) in
        (
          (
            returned,
            ap (λ (w : World). statuses (row_id api headers upload f.world) w.jobs) world
                ∙ ap (map (λ job. job.status)) (
                    select-one_edit (row_id api headers upload f.world)
                      (λ row. record row { status = "completed" }) _
                      (marked_as "clean" (scanning (job_row api headers upload f.world)))
                      (λ job. refl) (marked_job "clean")),
            ap (λ (w : World). last_message none w.published) world
                ∙ last_message-append none (rows calls).published
                    (told api lib scan reply headers upload "event.job.completed" "completed" w),
          ),
          ap (λ (w : World). has_object upload_bucket (key api headers upload) w.objects) world
              ∙ ground (arith, eq_refl (key api headers upload)),
        )
