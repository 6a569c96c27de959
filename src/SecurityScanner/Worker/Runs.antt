-- ===== src/SecurityScanner/Worker/Runs.antt =====
-- security_scanner/worker.py: what a whole run of `scan_file` does to the table of jobs and to the
-- messages, whichever call fails.
use filo_j.Prelude.{
  ℕ, String, Bool, ◌≡◌, refl, ◌∙◌, Option, none, some, Result, ok, err, raise, lift, nat_eq,
  nat_eq→eq, if◌then◌else◌, ◌>>=◌, ◌>>◌,
}
use filo_j.Prelude.Rules.{Preserves, bind-rule, bind-Preserves, if-rule}
use filo_j.Shared.Errors.{Exn}
use filo_j.Shared.Models.{Job}
use filo_j.Shared.Values.{Json}
use filo_j.Shared.World.{Published, World, Faults}
use filo_j.Shared.World.Laws.{call-rule}
use filo_j.Shared.Rows.Laws.{Passes, select_one-Passes}
use filo_j.Shared.Rows.{select_one, set_job}
use filo_j.Shared.Webhook.{is_exception}
use filo_j.Lifecycle.{Follows, fails, waits}
use filo_j.SecurityScanner.Frame.{on_world}
use filo_j.SecurityScanner.Worker.{
  Libraries, is_connection_error, uuid_of, mark, mark_found, mark_job, on_failure, publish_audit,
}
use filo_j.SecurityScanner.Worker.Laws.{Grows, same-Spares, audit-Spares, set_job-At}

module _ (lib : Libraries) (fault : Faults) (k : ℕ) (judged : Bool → Type 0)
    (may : Published → Type 0) (may_event : (m : Published) → m.exchange ≡ "system.events" → may m)
    (may_webhook : (m : Published) → m.exchange ≡ "webhook.retry" → may m) where
  abbrev pub Growing : World → World → Type 0
  Growing = Grows lib fault k judged may may_event may_webhook

  pub audit-Growing :
      (w0 : World) (job_id : Json) (key action : String)
      → Preserves (Growing w0) (publish_audit lib fault job_id key action)
  audit-Growing w0 job_id key action w g =
      (audit-Spares lib fault k judged may may_event may_webhook w0 w job_id key action g).0

  -- The job's status is committed when the block has failed.
  pub mark_job-Grows :
      (job_id : Json) (status : String) (result : Json) (w0 : World)
      → ((id : ℕ) → uuid_of lib fault job_id ≡ ok id → id ≡ k)
      → ((before : String → Type 0) → Follows judged before status)
      → Preserves (Growing w0) (mark_job lib fault job_id status result)
  unfolding mark_job
  mark_job-Grows job_id status result w0 names follows w g = named (uuid_of lib fault job_id) refl
    where
      after :
          (job : Option Job) (w1 : World) (id : ℕ)
          → id ≡ k
          → Passes (λ job. nat_eq job.id id) (ok job)
          → Growing w0 w1
          → Growing w0 (mark_found lib fault job status result w1).1
      after none w1 id e p g1 = g1
      after (some job) w1 id e p g1 =
          call-rule (λ r. Growing w0 r.1) fault (set_job job.id (mark lib fault status result)) w1
            (λ _. g1)
            (set_job-At lib fault k judged may may_event may_webhook status
              (mark lib fault status result) job.id w0 w1 (λ _. (refl, refl, refl))
              (nat_eq→eq job.id id p ∙ e) (follows _) g1).0

      named :
          (x : Result Exn ℕ)
          → uuid_of lib fault job_id ≡ x
          → Growing w0
              ((lift x >>= λ id. select_one fault (λ w. w.jobs) (λ job. nat_eq job.id id) >>= λ job.
                  mark_found lib fault job status result)
                w).1
      named (err e) _ = g
      named (ok id) e =
          bind-rule (λ r. Growing w0 r.1)
            (λ r. Growing w0 r.1 × Passes (λ job. nat_eq job.id id) r.0)
            (select_one fault (λ w. w.jobs) (λ job. nat_eq job.id id) w)
            (λ job. mark_found lib fault job status result) w
            (let s = select_one-Passes fault (λ w. w.jobs) (λ job. nat_eq job.id id) w in
              (
                (same-Spares lib fault k judged may may_event may_webhook w0 w
                    (select_one fault (λ w. w.jobs) (λ job. nat_eq job.id id) w) g s.0).0,
                s.1,
              ))
            (λ _ w1 q. q.0) (λ job w1 q. after job w1 id (names id e) q.1 q.0)

  pub on_failure-Growing :
      (job_id : Json) (e : Exn) (w0 : World)
      → ((id : ℕ) → uuid_of lib fault job_id ≡ ok id → id ≡ k)
      → Preserves (λ f. Growing w0 f.world) (on_failure lib fault job_id e)
  on_failure-Growing job_id e w0 names f g =
      let queued = on_world (
        mark_job lib fault job_id "queued_for_retry"
          (lib.error_data "clamav connection dropped, retrying")) in
      let failed =
        on_world (mark_job lib fault job_id "failed" (lib.error_data (lib.lower e.message))) in
      if-rule (λ m. Growing w0 (m f).1.world) (is_connection_error e.class) (queued >> raise e)
        (if is_exception e.class then failed >> raise e else raise e)
        (λ _.
          bind-Preserves (λ f. Growing w0 f.world) queued (λ _. raise e)
            (λ f' g'. mark_job-Grows job_id "queued_for_retry" _ w0 names (λ _. waits) f'.world g')
            (λ _ f' g'. g') f g)
        (λ _.
          if-rule (λ m. Growing w0 (m f).1.world) (is_exception e.class) (failed >> raise e)
            (raise e)
            (λ _.
              bind-Preserves (λ f. Growing w0 f.world) failed (λ _. raise e)
                (λ f' g'. mark_job-Grows job_id "failed" _ w0 names (λ _. fails) f'.world g')
                (λ _ f' g'. g') f g)
            (λ _. g))
