-- ===== src/SecurityScanner/Worker/Handlers.antt =====
-- security_scanner/worker.py: the `except` clauses of `scan_file`, and the scan of a file that was found.
use filo_j.Prelude.{
  ℕ, String, Bool, ◌≡◌, refl, true, some, Result, ok, err, Exec, raise, lift, gets, modify, leb,
  if◌then◌else◌, ◌>>=◌, ◌>>◌,
}
use filo_j.Prelude.Rules.{Keeps, Preserves, bind-rule, bind-Preserves, if-rule}
use filo_j.Shared.Errors.{Exn, exn, system_exit}
use filo_j.Shared.Models.{Job, FileMetaData}
use filo_j.Shared.Values.{Json, Dict}
use filo_j.Shared.World.{Published, World, Faults, call}
use filo_j.Shared.World.Laws.{SameRows, call-rule}
use filo_j.Shared.Storage.{get_file_stream}
use filo_j.Shared.Storage.Laws.{get_file_stream-SameRows}
use filo_j.Shared.Webhook.{is_exception}
use filo_j.SecurityScanner.Frame.{ScanReply, Frame, on_world, local}
use filo_j.SecurityScanner.Worker.{
  Libraries, is_connection_error, is_buffer_too_long, is_clean, publish_audit, notify, on_reply,
  run_scan, developer_of, scan_row, file_id_of, max_delivery_count, notify_failed, give_up, nack,
  on_scan_error,
}
use filo_j.SecurityScanner.Worker.Laws.{
  At, same-Spares, notify-Spares, Spares-At, audit-At, on_reply-Grows,
}
use filo_j.SecurityScanner.Worker.Runs.{Growing, audit-Growing}

module _ (lib : Libraries) (fault : Faults) (k : ℕ) (judged : Bool → Type 0)
    (may : Published → Type 0) (may_event : (m : Published) → m.exchange ≡ "system.events" → may m)
    (may_webhook : (m : Published) → m.exchange ≡ "webhook.retry" → may m) where
  -- `scan` leaves the rows and the messages alone. If it can answer a clean reply, the image tasks are
  -- messages that may be.
  module _ (scan : Exec World Exn ScanReply) (scan_same : Keeps SameRows scan)
      (judges : (w : World) (reply : ScanReply) → (scan w).0 ≡ ok reply → judged (is_clean reply))
      (may_task : (w : World) (reply : ScanReply)
        → (scan w).0 ≡ ok reply
        → is_clean reply ≡ true
        → (m : Published) → m.exchange ≡ "work.tasks"
        → may m) where
    pub nack-Growing :
        (w0 : World)
        → Preserves
            (λ f. Growing lib fault k judged may may_event may_webhook w0 f.world)
            (nack lib fault scan)
    nack-Growing w0 f g =
        bind-Preserves (λ f. Growing lib fault k judged may may_event may_webhook w0 f.world)
          (on_world (call fault (λ w. w))) (λ _. modify (λ f. record f { nacked = true }))
          (λ f' g'.
            call-rule (λ r. Growing lib fault k judged may may_event may_webhook w0 r.1) fault
              (λ w. w) f'.world (λ _. g') g')
          (λ _ f' g'. g') f g

    notify_failed-Growing :
        (w0 : World)
        → Preserves
            (λ f. Growing lib fault k judged may may_event may_webhook w0 f.world)
            (notify_failed lib fault scan)
    unfolding notify_failed
    notify_failed-Growing w0 =
        bind-Preserves (λ f. Growing lib fault k judged may may_event may_webhook w0 f.world)
          (λ f. (local f.job, f))
          (λ job. lift (file_id_of lib fault scan job) >>= λ file_id.
            (λ f. (local f.scan_res, f)) >>= λ reply. gets (λ f. f.developer_id) >>= λ developer_id.
            on_world (notify lib fault "event.job.failed" file_id "failed" reply developer_id))
          (λ f g. g)
          (λ job.
            bind-Preserves (λ f. Growing lib fault k judged may may_event may_webhook w0 f.world)
              (lift (file_id_of lib fault scan job))
              (λ file_id. (λ f. (local f.scan_res, f)) >>= λ reply.
                gets (λ f. f.developer_id) >>= λ developer_id.
                on_world (notify lib fault "event.job.failed" file_id "failed" reply developer_id))
              (λ f g. g)
              (λ file_id.
                bind-Preserves
                  (λ f. Growing lib fault k judged may may_event may_webhook w0 f.world)
                  (λ f. (local f.scan_res, f))
                  (λ reply. gets (λ f. f.developer_id) >>= λ developer_id.
                    on_world
                      (notify lib fault "event.job.failed" file_id "failed" reply developer_id))
                  (λ f g. g)
                  (λ reply f g.
                    (notify-Spares lib fault k judged may may_event may_webhook w0 f.world
                      "event.job.failed" file_id "failed" reply f.developer_id g).0)))

    audit_raise-Growing :
        (job_id : Json) (action : String) (e : Exn) (w0 : World)
        → Preserves
            (λ f. Growing lib fault k judged may may_event may_webhook w0 f.world)
            (on_world (publish_audit lib fault job_id "event.scanner.scan_fail" action)
              >> raise {A = Unit {0}} e)
    audit_raise-Growing job_id action e w0 =
        bind-Preserves (λ f. Growing lib fault k judged may may_event may_webhook w0 f.world)
          (on_world (publish_audit lib fault job_id "event.scanner.scan_fail" action))
          (λ _. raise e)
          (λ f g.
            audit-Growing lib fault k judged may may_event may_webhook w0 job_id _ action f.world g)
          (λ _ f g. g)

    give_up-Growing :
        (job_id : Json) (delivery_count : ℕ) (e : Exn) (w0 : World)
        → Preserves
            (λ f. Growing lib fault k judged may may_event may_webhook w0 f.world)
            (give_up lib fault scan job_id delivery_count e)
    unfolding give_up
    give_up-Growing job_id delivery_count e w0 f g =
        let last =
          on_world
            (publish_audit lib fault job_id "event.scanner.scan_fail" "moved to dlx exchange")
          >> raise {A = Unit {0}} e in
        if-rule (λ m. Growing lib fault k judged may may_event may_webhook w0 (m f).1.world)
          (leb max_delivery_count delivery_count) (notify_failed lib fault scan >> last) _
          (λ _.
            bind-Preserves (λ f. Growing lib fault k judged may may_event may_webhook w0 f.world)
              (notify_failed lib fault scan) (λ _. last) (notify_failed-Growing w0)
              (λ _. audit_raise-Growing job_id _ e w0) f g)
          (λ _. audit_raise-Growing job_id _ e w0 f g)

    pub on_scan_error-Growing :
        (job_id : Json) (delivery_count : ℕ) (e : Exn) (w0 : World)
        → Preserves
            (λ f. Growing lib fault k judged may may_event may_webhook w0 f.world)
            (on_scan_error lib fault scan job_id delivery_count e)
    unfolding on_scan_error
    on_scan_error-Growing job_id delivery_count e w0 f g =
        let too_long = on_world (
          publish_audit lib fault job_id "event.scanner.scan_fail"
            "scan failed: buffer too long") in
        if-rule
          (λ (m : Exec Frame Exn (Unit {0})).
            Growing lib fault k judged may may_event may_webhook w0 (m f).1.world)
          (is_connection_error e.class) _ _
          (λ _. audit_raise-Growing job_id "queued_for_retry" (exn system_exit "1") w0 f g)
          (λ _.
            if-rule (λ m. Growing lib fault k judged may may_event may_webhook w0 (m f).1.world)
              (is_buffer_too_long e.class) (too_long >> nack lib fault scan)
              (if is_exception e.class
                then give_up lib fault scan job_id delivery_count e
                else raise e)
              (λ _.
                bind-Preserves
                  (λ f. Growing lib fault k judged may may_event may_webhook w0 f.world) too_long
                  (λ _. nack lib fault scan)
                  (λ f' g'.
                    audit-Growing lib fault k judged may may_event may_webhook w0 job_id _ _
                      f'.world g')
                  (λ _. nack-Growing w0) f g)
              (λ _.
                if-rule (λ m. Growing lib fault k judged may may_event may_webhook w0 (m f).1.world)
                  (is_exception e.class) (give_up lib fault scan job_id delivery_count e) (raise e)
                  (λ _. give_up-Growing job_id delivery_count e w0 f g) (λ _. g)))

    -- The reply that a run returns is one that `scan` can answer.
    abbrev Answered : Result Exn ScanReply → Type 0
    Answered (err e) = Unit
    Answered (ok reply) = (w : World) × ((scan w).0 ≡ ok reply)

    scan-Answered : (x : Result Exn ScanReply) (w : World) → (scan w).0 ≡ x → Answered x
    scan-Answered (err e) w h = tt
    scan-Answered (ok reply) w h = (w, h)

    run_scan-At :
        (job_id : Json) (key : String) (w0 w : World)
        → At lib fault k judged may may_event may_webhook "scanning" w0 w
        → At lib fault k judged may may_event may_webhook "scanning" w0
            (run_scan lib fault scan job_id key w).1
          × Answered (run_scan lib fault scan job_id key w).0
    unfolding run_scan
    run_scan-At job_id key w0 w at =
        let Scanning = At lib fault k judged may may_event may_webhook "scanning" w0 in
        let download = get_file_stream fault key (lib.chunks key) in
        bind-rule (λ r. Scanning r.1 × Answered r.0) (λ r. Scanning r.1)
          (publish_audit lib fault job_id "event.scanner.scan_start" "security scan started" w)
          (λ _. download >> scan) w
          (audit-At lib fault k judged may may_event may_webhook "scanning" w0 w job_id _ _ at)
          (λ _ w1 a. (a, tt))
          (λ _ w1 a1.
            bind-rule (λ r. Scanning r.1 × Answered r.0) (λ r. Scanning r.1) (download w1)
              (λ _. scan) w1
              (spared w1 (download w1) a1 (get_file_stream-SameRows fault key (lib.chunks key) w1))
              (λ _ w2 a. (a, tt))
              (λ _ w2 a2.
                (spared w2 (scan w2) a2 (scan_same w2), scan-Answered (scan w2).0 w2 refl)))
      where
        spared :
            {A : Type 0} (w1 : World) (r : Result Exn A × World)
            → At lib fault k judged may may_event may_webhook "scanning" w0 w1
            → SameRows w1 r.1
            → At lib fault k judged may may_event may_webhook "scanning" w0 r.1
        spared w1 r a h =
            Spares-At lib fault k judged may may_event may_webhook "scanning" w0 w1 r a
              (same-Spares lib fault k judged may may_event may_webhook w0 w1 r a.0 h)

    pub scan_row-Growing :
        (job : Job) (job_id : Json) (key : String) (payload : Dict) (file : FileMetaData)
        (w0 : World) (f : Frame)
        → job.id ≡ k
        → At lib fault k judged may may_event may_webhook "scanning" w0 f.world
        → Growing lib fault k judged may may_event may_webhook w0
            (scan_row lib fault scan job job_id key payload file f).1.world
    unfolding scan_row
    scan_row-Growing job job_id key payload file w0 f e at =
        let answer = λ (reply : ScanReply).
          modify (λ f. record f { scan_res = some reply })
          >> (gets (λ f. f.developer_id) >>= λ developer_id.
              on_world (on_reply lib fault job file job_id key payload developer_id reply)) in
        let f1 = record f { developer_id = developer_of lib fault scan f.developer_id file } in
        bind-rule (λ r. Growing lib fault k judged may may_event may_webhook w0 r.1.world)
          (λ r.
            At lib fault k judged may may_event may_webhook "scanning" w0 r.1.world × Answered r.0)
          (on_world (run_scan lib fault scan job_id key) f1) answer f1
          (run_scan-At job_id key w0 f.world at) (λ _ f2 q. q.0.0)
          (λ reply f2 q.
            on_reply-Grows lib fault k judged may may_event may_webhook job file job_id key payload
              f2.developer_id reply w0 f2.world (judges q.1.0 reply q.1.1)
              (may_task q.1.0 reply q.1.1) e q.0)
