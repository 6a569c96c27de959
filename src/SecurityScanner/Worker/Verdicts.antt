-- ===== src/SecurityScanner/Worker/Verdicts.antt =====
-- security_scanner/worker.py: what follows the answer of ClamAV if no call fails.
use Prim.Native.String.{◌++◌ as ◌++ₛ◌}
use filo_j.Prelude.{String, ◌≡◌, true, false, none, Result, ok, ◌==◌, ◌>>◌}
use filo_j.Prelude.Rules.{bind-ok}
use filo_j.Shared.Errors.{Exn}
use filo_j.Shared.Models.{Job, FileMetaData}
use filo_j.Shared.Values.{Json, Dict}
use filo_j.Shared.World.{Published, World, tick, call, quiet}
use filo_j.Shared.Rows.{set_job, set_file}
use filo_j.Shared.Broker.{publish}
use filo_j.Shared.Storage.{upload_bucket, has_object, put_object, remove_object, move_to_quarantine}
use filo_j.Shared.Webhook.Laws.{webhook_message}
use filo_j.Shared.Quiet.{
  sent, IsOpen, publish-quiet, dispatch_to_webhook-quiet, moved, move_to_quarantine-quiet,
}
use filo_j.SecurityScanner.Frame.{ScanReply}
use filo_j.SecurityScanner.Worker.{
  Libraries, is_clean, is_image, mark, publish_audit, notify, quarantine, pass_on, on_reply,
}
use filo_j.SecurityScanner.Worker.Quiet.{audit, publish_audit-quiet}

-- The client can publish to each exchange that the scanner uses.
pub record CanPublish (w : World) : Type 0 where
  pub to_tasks : IsOpen "work.tasks" w
  pub to_events : IsOpen "system.events" w
  pub to_retry : IsOpen "webhook.retry" w

-- The words that the scanner uses are not blank.
pub record IsStrip (strip : String → String) : Type 0 where
  pub quarantined_event : (strip "event.job.quarantined" == "") ≡ false
  pub infected_status : (strip "infected" == "") ≡ false
  pub completed_event : (strip "event.job.completed" == "") ≡ false
  pub completed_status : (strip "completed" == "") ≡ false

module _ (lib : Libraries) (words : IsStrip lib.strip) (job : Job) (file : FileMetaData)
    (job_id : Json) (key : String) (payload : Dict) (developer_id : Json) (reply : ScanReply) where
  abbrev pub verdict : String → World → World
  verdict status w = set_job job.id (mark lib quiet status (lib.scan_data reply)) (
      tick (
        sent
          (audit job_id "event.scanner.scan_success"
            ("security scan completed: status - " ++ₛ status))
          w))

  abbrev pub job_event : String → String → Published
  job_event event status =
      webhook_message event (lib.show_uuid job.file_id) status (lib.scan_data reply) developer_id

  -- An infected file
  abbrev pub quarantined_rows : World → World
  quarantined_rows w =
      set_file file.id (λ row. record row { bucket = "quarantine" })
        (set_job job.id (λ row. record row { status = "quarantined" })
          (tick (moved key (verdict "infected" w))))

  abbrev pub quarantined_end : World → World
  quarantined_end w = sent (job_event "event.job.quarantined" "infected") (quarantined_rows w)

  -- A clean file that is no image
  abbrev pub completed_rows : World → World
  completed_rows w =
      set_job job.id (λ row. record row { status = "completed" }) (tick (verdict "clean" w))

  abbrev pub completed_end : World → World
  completed_end w = sent (job_event "event.job.completed" "completed") (completed_rows w)

  -- A clean image
  abbrev pub image_task : Published
  image_task = record {
    exchange = "work.tasks";
    routing_key = "task.image.process";
    payload = payload;
    headers = none;
  }

  abbrev pub passed_end : World → World
  passed_end w =
      sent (audit job_id "event.scanner.image_queued" "image submitted to processing")
        (sent image_task (verdict "clean" w))

  module _ (w : World) (ready : CanPublish w) where
    pub on_reply_infected :
        is_clean reply ≡ false
        → has_object upload_bucket key w.objects ≡ true
        → on_reply lib quiet job file job_id key payload developer_id reply w
          ≡ (ok tt, quarantined_end w)
    unfolding on_reply quarantine set_job set_file put_object remove_object
    on_reply_infected unclean there =
        let w2 = verdict "infected" w in
        let w4 =
          set_file file.id (λ row. record row { bucket = "quarantine" })
            (set_job job.id (λ row. record row { status = "quarantined" }) (tick (moved key w2))) in
        let tell =
          notify lib quiet "event.job.quarantined" job.file_id "infected" reply developer_id in
        let commit = λ (w : World).
          set_file file.id (λ row. record row { bucket = "quarantine" })
            (set_job job.id (λ row. record row { status = "quarantined" }) w) in
        rw unclean (
          bind-ok
            (publish_audit lib quiet job_id "event.scanner.scan_success"
              "security scan completed: status - infected" w)
            (λ _.
              call quiet (set_job job.id (mark lib quiet "infected" (lib.scan_data reply)))
              >> quarantine lib quiet job file key reply developer_id)
            w
            (sent
              (audit job_id "event.scanner.scan_success"
                "security scan completed: status - infected")
              w)
            tt (publish_audit-quiet lib job_id _ _ w ready.to_events)
            (bind-ok (move_to_quarantine quiet key w2) (λ _. call quiet commit >> tell) w2
              (moved key w2) tt (move_to_quarantine-quiet key w2 there)
              (dispatch_to_webhook-quiet lib.strip "event.job.quarantined"
                (lib.show_uuid job.file_id) "infected" (lib.scan_data reply) developer_id w4
                words.quarantined_event words.infected_status ready.to_retry)))

    pass_on_other :
        is_image file ≡ false
        → pass_on lib quiet job file job_id payload reply developer_id (verdict "clean" w)
          ≡ (ok tt, completed_end w)
    unfolding pass_on set_job
    pass_on_other other =
        let w3 =
          set_job job.id (λ row. record row { status = "completed" }) (tick (verdict "clean" w)) in
        rw other (
          dispatch_to_webhook-quiet lib.strip "event.job.completed" (lib.show_uuid job.file_id)
            "completed" (lib.scan_data reply) developer_id w3 words.completed_event
            words.completed_status ready.to_retry)

    pass_on_image :
        is_image file ≡ true
        → pass_on lib quiet job file job_id payload reply developer_id (verdict "clean" w)
          ≡ (ok tt, passed_end w)
    unfolding pass_on set_job
    pass_on_image image = rw image (
        bind-ok (publish quiet "work.tasks" "task.image.process" payload none (verdict "clean" w))
          (λ _.
            publish_audit lib quiet job_id "event.scanner.image_queued"
              "image submitted to processing")
          (verdict "clean" w) (sent image_task (verdict "clean" w)) tt
          (publish-quiet "work.tasks" "task.image.process" payload none (verdict "clean" w)
            ready.to_tasks)
          (publish_audit-quiet lib job_id _ _ (sent image_task (verdict "clean" w))
            ready.to_events))

    passed_on :
        (r : Result Exn (Unit {0}) × World)
        → is_clean reply ≡ true
        → pass_on lib quiet job file job_id payload reply developer_id (verdict "clean" w) ≡ r
        → on_reply lib quiet job file job_id key payload developer_id reply w ≡ r
    unfolding on_reply
    passed_on r clean passed = rw clean (
        bind-ok
          (publish_audit lib quiet job_id "event.scanner.scan_success"
            "security scan completed: status - clean" w)
          (λ _.
            call quiet (set_job job.id (mark lib quiet "clean" (lib.scan_data reply)))
            >> pass_on lib quiet job file job_id payload reply developer_id)
          w
          (sent
            (audit job_id "event.scanner.scan_success" "security scan completed: status - clean") w)
          tt (publish_audit-quiet lib job_id _ _ w ready.to_events) passed)

    pub on_reply_clean :
        is_clean reply ≡ true
        → is_image file ≡ false
        → on_reply lib quiet job file job_id key payload developer_id reply w
          ≡ (ok tt, completed_end w)
    on_reply_clean clean other = passed_on (ok tt, completed_end w) clean (pass_on_other other)

    pub on_reply_image :
        is_clean reply ≡ true
        → is_image file ≡ true
        → on_reply lib quiet job file job_id key payload developer_id reply w
          ≡ (ok tt, passed_end w)
    on_reply_image clean image = passed_on (ok tt, passed_end w) clean (pass_on_image image)
