-- ===== src/SecurityScanner/Worker/Outcome.antt =====
-- security_scanner/worker.py: a whole run of `scan_file`. The life of a job, and which messages may go out.
use filo_j.Prelude.{
  ℕ, String, Bool, ◌≡◌, refl, ◌∙◌, true, Option, none, some, Result, ok, err, Exec, lift, modify,
  nat_eq, nat_eq→eq, ◌==◌, ◌>>=◌, ◌>>◌,
}
use filo_j.Prelude.Rules.{Keeps, Preserves, bind-rule, catch-Preserves}
use filo_j.Shared.Errors.{Exn}
use filo_j.Shared.Models.{Job, FileMetaData}
use filo_j.Shared.Values.{Json, null, Dict, get}
use filo_j.Shared.World.{Published, World, Faults, call}
use filo_j.Shared.World.Laws.{SameRows, call-rule}
use filo_j.Shared.Rows.Laws.{Passes, select_one-Passes}
use filo_j.Shared.Rows.{select_one, set_job}
use filo_j.Lifecycle.{begins}
use filo_j.SecurityScanner.Frame.{ScanReply, Frame, on_world}
use filo_j.SecurityScanner.Worker.{
  Libraries, is_clean, uuid_of, on_failure, job_transaction, scan_found, scan_job, scan_block,
  on_scan_error, key_of, scan_parsed,
}
use filo_j.SecurityScanner.Worker.Laws.{At, same-Spares, Spares-At, set_job-At}
use filo_j.SecurityScanner.Worker.Runs.{Growing, on_failure-Growing}
use filo_j.SecurityScanner.Worker.Handlers.{on_scan_error-Growing, scan_row-Growing}

module _ (lib : Libraries) (fault : Faults) (k : ℕ) (judged : Bool → Type 0)
    (may : Published → Type 0) (may_event : (m : Published) → m.exchange ≡ "system.events" → may m)
    (may_webhook : (m : Published) → m.exchange ≡ "webhook.retry" → may m)
    (scan : Exec World Exn ScanReply) (scan_same : Keeps SameRows scan)
    (judges : (w : World) (reply : ScanReply) → (scan w).0 ≡ ok reply → judged (is_clean reply))
    (may_task : (w : World) (reply : ScanReply)
      → (scan w).0 ≡ ok reply
      → is_clean reply ≡ true
      → (m : Published) → m.exchange ≡ "work.tasks"
      → may m) where
  scan_job-Growing :
      (job_id file_key : Json) (payload : Dict) (id : ℕ) (job : Option Job) (w0 : World) (f : Frame)
      → id ≡ k
      → Passes (λ job. nat_eq job.id id) (ok job)
      → Growing lib fault k judged may may_event may_webhook w0 f.world
      → Growing lib fault k judged may may_event may_webhook w0
          (scan_job lib fault scan job_id file_key payload job f).1.world
  scan_job-Growing job_id file_key payload id none w0 f e p g = g
  scan_job-Growing job_id file_key payload id (some job) w0 f e p g =
      let Scanning = At lib fault k judged may may_event may_webhook "scanning" w0 in
      let begin = λ (row : Job). record row { status = "scanning" } in
      let find = λ (key : String).
        select_one fault (λ w. w.files) (λ (file : FileMetaData). file.storage_location == key) in
      let same_id = nat_eq→eq job.id id p ∙ e in
      bind-rule (λ r. Growing lib fault k judged may may_event may_webhook w0 r.1.world)
        (λ r. Begun r.0 r.1.world) (on_world (call fault (set_job job.id begin)) f)
        (λ _. lift (key_of lib fault scan file_key) >>= λ key.
          on_world (find key) >>= scan_found lib fault scan job job_id key payload)
        f
        (call-rule (λ r. Begun r.0 r.1) fault (set_job job.id begin) f.world (λ _. g)
          (set_job-At lib fault k judged may may_event may_webhook "scanning" begin job.id w0
            f.world (λ _. (refl, refl, refl)) same_id begins g))
        (λ _ f1 b. b)
        (λ _ f1 b.
          bind-rule (λ r. Growing lib fault k judged may may_event may_webhook w0 r.1.world)
            (λ r. Scanning r.1.world) (key_of lib fault scan file_key, f1)
            (λ key. on_world (find key) >>= scan_found lib fault scan job job_id key payload) f1 b
            (λ _ f2 a. a.0)
            (λ key f2 a.
              bind-rule (λ r. Growing lib fault k judged may may_event may_webhook w0 r.1.world)
                (λ r. Scanning r.1.world) (on_world (find key) f2)
                (scan_found lib fault scan job job_id key payload) f2
                (Spares-At lib fault k judged may may_event may_webhook "scanning" w0 f2.world
                  (find key f2.world) a
                  (same-Spares lib fault k judged may may_event may_webhook w0 f2.world
                    (find key f2.world) a.0
                    (select_one-Passes fault (λ w. w.files) (λ file. file.storage_location == key)
                      f2.world).0))
                (λ _ f3 a'. a'.0) (λ file f3 a'. found file key f3 same_id a')))
    where
      Begun : Result Exn (Unit {0}) → World → Type 0
      Begun (ok _) w = At lib fault k judged may may_event may_webhook "scanning" w0 w
      Begun (err _) w = Growing lib fault k judged may may_event may_webhook w0 w

      found :
          (file : Option FileMetaData) (key : String) (f3 : Frame)
          → job.id ≡ k
          → At lib fault k judged may may_event may_webhook "scanning" w0 f3.world
          → Growing lib fault k judged may may_event may_webhook w0
              (scan_found lib fault scan job job_id key payload file f3).1.world
      found none key f3 same_id a = a.0
      found (some file) key f3 same_id a =
          scan_row-Growing lib fault k judged may may_event may_webhook scan scan_same judges
            may_task job job_id key payload file w0 f3 same_id a

  module _ (job_id : Json) (names : (id : ℕ) → uuid_of lib fault job_id ≡ ok id → id ≡ k) where
    scan_block-Growing :
        (file_key : Json) (payload : Dict) (w0 : World)
        → Preserves
            (λ f. Growing lib fault k judged may may_event may_webhook w0 f.world)
            (scan_block lib fault scan job_id file_key payload)
    unfolding scan_block
    scan_block-Growing file_key payload w0 f g = named (uuid_of lib fault job_id) refl
      where
        named :
            (x : Result Exn ℕ)
            → uuid_of lib fault job_id ≡ x
            → Growing lib fault k judged may may_event may_webhook w0
                ((lift x >>= λ id.
                    on_world (select_one fault (λ w. w.jobs) (λ job. nat_eq job.id id)) >>= λ job.
                    modify (λ f. record f { job = some job })
                    >> scan_job lib fault scan job_id file_key payload job)
                  f).1.world
        named (err e) _ = g
        named (ok id) e =
            bind-rule (λ r. Growing lib fault k judged may may_event may_webhook w0 r.1.world)
              (λ r.
                Growing lib fault k judged may may_event may_webhook w0 r.1.world
                × Passes (λ job. nat_eq job.id id) r.0)
              (on_world (select_one fault (λ w. w.jobs) (λ job. nat_eq job.id id)) f)
              (λ job.
                modify (λ f. record f { job = some job })
                >> scan_job lib fault scan job_id file_key payload job)
              f
              (let s = select_one-Passes fault (λ w. w.jobs) (λ job. nat_eq job.id id) f.world in
                (
                  (same-Spares lib fault k judged may may_event may_webhook w0 f.world
                      (select_one fault (λ w. w.jobs) (λ job. nat_eq job.id id) f.world) g s.0).0,
                  s.1,
                ))
              (λ _ f1 q. q.0)
              (λ job f1 q.
                scan_job-Growing job_id file_key payload id job w0 (record f1 { job = some job })
                  (names id e) q.1 q.0)

    pub scan_parsed-Growing :
        (delivery_count : ℕ) (file_key : Json) (payload : Dict) (w0 : World)
        → Preserves
            (λ f. Growing lib fault k judged may may_event may_webhook w0 f.world)
            (scan_parsed lib fault scan delivery_count (ok (job_id, file_key, payload)))
    unfolding job_transaction
    scan_parsed-Growing delivery_count file_key payload w0 f g =
        catch-Preserves (λ f. Growing lib fault k judged may may_event may_webhook w0 f.world)
          (job_transaction lib fault job_id (scan_block lib fault scan job_id file_key payload))
          (on_scan_error lib fault scan job_id delivery_count)
          (catch-Preserves (λ f. Growing lib fault k judged may may_event may_webhook w0 f.world)
            (scan_block lib fault scan job_id file_key payload) (on_failure lib fault job_id)
            (scan_block-Growing file_key payload w0)
            (λ e.
              on_failure-Growing lib fault k judged may may_event may_webhook job_id e w0 names))
          (λ e.
            on_scan_error-Growing lib fault k judged may may_event may_webhook scan scan_same judges
              may_task job_id delivery_count e w0)
          (record f { developer_id = get "developer_id" null payload }) g
