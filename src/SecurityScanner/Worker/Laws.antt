-- ===== src/SecurityScanner/Worker/Laws.antt =====
-- security_scanner/worker.py: what `scan_file` does to the table of jobs and to the messages,
-- whichever call fails.
use filo_j.Prelude.{
  ℕ, String, ◌≡◌, refl, sym, ap, ◌∙◌, subst, inl, inr, Bool, true, false, none, map, Result, ok,
  err, Exec, Bool-cases, ◌>>◌,
}
use filo_j.Prelude.Rules.{bind-rule, if-rule}
use filo_j.Shared.Errors.{Exn}
use filo_j.Shared.Models.{Job, FileMetaData}
use filo_j.Shared.Values.{Json, Dict}
use filo_j.Shared.World.{Published, World, Faults, tick, call}
use filo_j.Shared.World.Laws.{SameRows, Sends, call-then, Extends, Extends-refl, Extends-one}
use filo_j.Shared.Rows.{edit_job, set_job, set_file}
use filo_j.Shared.Broker.{publish}
use filo_j.Shared.Broker.Laws.{publish-Sends}
use filo_j.Shared.Storage.{move_to_quarantine}
use filo_j.Shared.Storage.Laws.{move_to_quarantine-SameRows}
use filo_j.Shared.Webhook.Laws.{dispatch_to_webhook-Sends}
use filo_j.Lifecycle.{
  all_status, all_status-edit_job, Assigns, Follows, change, Life, same, later, cleared, infected,
  quarantined, completed,
}
use filo_j.SecurityScanner.Frame.{ScanReply, Frame, on_world}
use filo_j.SecurityScanner.Worker.{
  Libraries, is_clean, is_image, mark, publish_audit, notify, quarantine, pass_on, on_reply,
}

-- An action on the world, within a run of `scan_file`
pub on_world-rule :
    {A : Type 0} (P : Result Exn A × Frame → Type 0) (Q : Result Exn A × World → Type 0)
    (m : Exec World Exn A) (f : Frame)
    → Q (m f.world)
    → ((r : Result Exn A) (w : World) → Q (r, w) → P (r, record f { world = w }))
    → P (on_world m f)
on_world-rule P Q m f q then_P = then_P (m f.world).0 (m f.world).1 q

module _ (lib : Libraries) (fault : Faults) (k : ℕ) (judged : Bool → Type 0)
    (may : Published → Type 0) (may_event : (m : Published) → m.exchange ≡ "system.events" → may m)
    (may_webhook : (m : Published) → m.exchange ≡ "webhook.retry" → may m) where
  -- The table went through a life of the job `k`, and the new messages are ones that may be.
  abbrev pub Grows : World → World → Type 0
  Grows w0 w = Life judged k w0.jobs w.jobs × Extends may w0.published w.published

  pub Grows-refl : (w : World) → Grows w w
  Grows-refl w = (same, Extends-refl may w.published)

  -- What spares the table
  abbrev pub Spares : {A : Type 0} → World → World → Result Exn A × World → Type 0
  Spares w0 w r = Grows w0 r.1 × (r.1.jobs ≡ w.jobs)

  pub same-Spares :
      {A : Type 0} (w0 w : World) (r : Result Exn A × World)
      → Grows w0 w
      → SameRows w r.1
      → Spares w0 w r
  same-Spares w0 w r g s = (
    (
      subst (λ jobs. Life judged k w0.jobs jobs) (sym s.0) g.0,
      subst (λ ms. Extends may w0.published ms) (sym s.2) g.1,
    ),
    s.0,
  )

  message-Spares :
      (w0 w : World) (m : Published) (r : Result Exn (Unit {0}) × World)
      → may m
      → Grows w0 w
      → Sends m w r
      → Spares w0 w r
  message-Spares w0 w m (err e, w') ok_m g s = same-Spares {A = Unit {0}} w0 w (err e, w') g s
  message-Spares w0 w m (ok _, w') ok_m g s = (
    (
      subst (λ jobs. Life judged k w0.jobs jobs) (sym s.0) g.0,
      Extends-one may w0.published w.published w'.published m g.1 ok_m s.2,
    ),
    s.0,
  )

  pub audit-Spares :
      (w0 w : World) (job_id : Json) (key action : String)
      → Grows w0 w
      → Spares w0 w (publish_audit lib fault job_id key action w)
  unfolding publish_audit
  audit-Spares w0 w job_id key action g =
      message-Spares w0 w _ _ (may_event _ refl) g
        (publish-Sends fault "system.events" key _ none w)

  pub notify-Spares :
      (w0 w : World) (event : String) (file_id : ℕ) (status : String) (reply : ScanReply)
      (developer_id : Json)
      → Grows w0 w
      → Spares w0 w (notify lib fault event file_id status reply developer_id w)
  notify-Spares w0 w event file_id status reply developer_id g =
      message-Spares w0 w _ _ (may_webhook _ refl) g (
        dispatch_to_webhook-Sends lib.strip fault event (lib.show_uuid file_id) status
          (lib.scan_data reply) developer_id w)

  -- The row has a known status.
  abbrev pub At : String → World → World → Type 0
  At status w0 w = Grows w0 w × (all_status k status w.jobs ≡ true)

  pub Spares-At :
      {A : Type 0} (status : String) (w0 w : World) (r : Result Exn A × World)
      → At status w0 w
      → Spares w0 w r
      → At status w0 r.1
  Spares-At status w0 w r a s = (s.0, ap (all_status k status) s.1 ∙ a.1)

  pub audit-At :
      (status : String) (w0 w : World) (job_id : Json) (key action : String)
      → At status w0 w
      → At status w0 (publish_audit lib fault job_id key action w).1
  audit-At status w0 w job_id key action a =
      Spares-At status w0 w (publish_audit lib fault job_id key action w) a
        (audit-Spares w0 w job_id key action a.0)

  -- A commit of the job's status
  pub set_job-At :
      (status : String) (f : Job → Job) (id : ℕ) (w0 w : World)
      → Assigns status f
      → id ≡ k
      → Follows judged (λ before. all_status k before w.jobs ≡ true) status
      → Grows w0 w
      → At status w0 (set_job id f (tick w))
  unfolding set_job
  set_job-At status f id w0 w a e follows g = (
    (later g.0 (change status f a follows (ap (λ i. map (edit_job i f) w.jobs) e)), g.1),
    ap (λ i. all_status k status (map (edit_job i f) w.jobs)) e
        ∙ all_status-edit_job k status f w.jobs a,
  )

  -- The two ends of a scan
  quarantine-Grows :
      (job : Job) (file : FileMetaData) (key : String) (reply : ScanReply) (developer_id : Json)
      (w0 w : World)
      → judged false
      → job.id ≡ k
      → At "infected" w0 w
      → Grows w0 (quarantine lib fault job file key reply developer_id w).1
  unfolding quarantine set_file
  quarantine-Grows job file key reply developer_id w0 w j e at =
      let commit = λ (w : World).
        set_file file.id (λ row. record row { bucket = "quarantine" })
          (set_job job.id (λ row. record row { status = "quarantined" }) w) in
      let tell =
        notify lib fault "event.job.quarantined" job.file_id "infected" reply developer_id in
      bind-rule (λ r. Grows w0 r.1) (λ r. At "infected" w0 r.1) (move_to_quarantine fault key w)
        (λ _. call fault commit >> tell) w
        (Spares-At "infected" w0 w (move_to_quarantine fault key w) at (
          same-Spares w0 w (move_to_quarantine fault key w) at.0
            (move_to_quarantine-SameRows fault key w)))
        (λ _ w1 a. a.0)
        (λ _ w1 a.
          call-then (λ r. Grows w0 r.1) fault commit tell w1 (λ _. a.0)
            (notify-Spares w0 (commit (tick w1)) "event.job.quarantined" job.file_id "infected"
              reply developer_id
              (set_job-At "quarantined" (λ row. record row { status = "quarantined" }) job.id w0 w1
                (λ _. (refl, refl, refl)) e (quarantined j a.1) a.0).0).0)

  pass_on-Grows :
      (job : Job) (file : FileMetaData) (job_id : Json) (payload : Dict) (reply : ScanReply)
      (developer_id : Json) (w0 w : World)
      → ((m : Published) → m.exchange ≡ "work.tasks" → may m)
      → judged true
      → job.id ≡ k
      → At "clean" w0 w
      → Grows w0 (pass_on lib fault job file job_id payload reply developer_id w).1
  unfolding pass_on
  pass_on-Grows job file job_id payload reply developer_id w0 w may_task j e at =
      let tell =
        notify lib fault "event.job.completed" job.file_id "completed" reply developer_id in
      let audit =
        publish_audit lib fault job_id "event.scanner.image_queued"
          "image submitted to processing" in
      let complete = λ (row : Job). record row { status = "completed" } in
      if-rule (λ m. Grows w0 (m w).1) (is_image file)
        (publish fault "work.tasks" "task.image.process" payload none >> audit)
        (call fault (set_job job.id complete) >> tell)
        (λ _.
          bind-rule (λ r. Grows w0 r.1) (λ r. Grows w0 r.1)
            (publish fault "work.tasks" "task.image.process" payload none w) (λ _. audit) w
            (message-Spares w0 w _ _ (may_task _ refl) at.0
              (publish-Sends fault "work.tasks" "task.image.process" payload none w)).0
            (λ _ w1 g. g) (λ _ w1 g. (audit-Spares w0 w1 job_id _ _ g).0))
        (λ _.
          call-then (λ r. Grows w0 r.1) fault (set_job job.id complete) tell w (λ _. at.0)
            (notify-Spares w0 _ "event.job.completed" job.file_id "completed" reply developer_id
              (set_job-At "completed" complete job.id w0 w (λ _. (refl, refl, refl)) e
                (completed j at.1) at.0).0).0)

  -- After an audit event, the verdict is committed and acted on.
  verdict-Grows :
      (job : Job) (status : String) (reply : ScanReply) (rest : Exec World Exn (Unit {0}))
      (w0 w : World)
      → job.id ≡ k
      → Follows judged (λ before. all_status k before w.jobs ≡ true) status
      → Grows w0 w
      → ((w1 : World) → At status w0 w1 → Grows w0 (rest w1).1)
      → Grows w0
          ((call fault (set_job job.id (mark lib fault status (lib.scan_data reply))) >> rest) w).1
  verdict-Grows job status reply rest w0 w e follows g then_grows =
      call-then (λ r. Grows w0 r.1) fault
        (set_job job.id (mark lib fault status (lib.scan_data reply))) rest w (λ _. g)
        (then_grows _ (
          set_job-At status (mark lib fault status (lib.scan_data reply)) job.id w0 w
            (λ _. (refl, refl, refl)) e follows g))

  pub on_reply-Grows :
      (job : Job) (file : FileMetaData) (job_id : Json) (key : String) (payload : Dict)
      (developer_id : Json) (reply : ScanReply) (w0 w : World)
      → judged (is_clean reply)
      → (is_clean reply ≡ true → (m : Published) → m.exchange ≡ "work.tasks" → may m)
      → job.id ≡ k
      → At "scanning" w0 w
      → Grows w0 (on_reply lib fault job file job_id key payload developer_id reply w).1
  unfolding on_reply
  on_reply-Grows job file job_id key payload developer_id reply w0 w j may_task e at =
      let audit = publish_audit lib fault job_id "event.scanner.scan_success" in
      elim (Bool-cases (is_clean reply)) [
        | inl clean ↦ rw clean (
            bind-rule (λ r. Grows w0 r.1) (λ r. At "scanning" w0 r.1)
              (audit "security scan completed: status - clean" w)
              (λ _.
                call fault (set_job job.id (mark lib fault "clean" (lib.scan_data reply)))
                >> pass_on lib fault job file job_id payload reply developer_id)
              w (audit-At "scanning" w0 w job_id _ _ at) (λ _ w1 a. a.0)
              (λ _ w1 a.
                verdict-Grows job "clean" reply
                  (pass_on lib fault job file job_id payload reply developer_id) w0 w1 e
                  (cleared (subst judged clean j) a.1) a.0
                  (λ w2 a'.
                    pass_on-Grows job file job_id payload reply developer_id w0 w2 (may_task clean)
                      (subst judged clean j) e a')))
        | inr other ↦ rw other (
            bind-rule (λ r. Grows w0 r.1) (λ r. At "scanning" w0 r.1)
              (audit "security scan completed: status - infected" w)
              (λ _.
                call fault (set_job job.id (mark lib fault "infected" (lib.scan_data reply)))
                >> quarantine lib fault job file key reply developer_id)
              w (audit-At "scanning" w0 w job_id _ _ at) (λ _ w1 a. a.0)
              (λ _ w1 a.
                verdict-Grows job "infected" reply
                  (quarantine lib fault job file key reply developer_id) w0 w1 e
                  (infected (subst judged other j) a.1) a.0
                  (λ w2 a'.
                    quarantine-Grows job file key reply developer_id w0 w2 (subst judged other j) e
                      a')))
      ]
