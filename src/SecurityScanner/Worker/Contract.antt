-- ===== src/SecurityScanner/Worker/Contract.antt =====
-- security_scanner/worker.py: what `scan_file` promises to the other services.
use filo_j.Prelude.{
  ℕ, String, Bool, ◌⊎◌, inl, inr, eq_iff, ◌≡◌, ◌≢◌, refl, sym, ◌∙◌, false, Option, none, some,
  Result, ok, err, Exec, raise, arith,
}
use filo_j.Prelude.Rules.{Keeps, if-rule}
use filo_j.Shared.Errors.{Exn}
use filo_j.Shared.Values.{Json, Dict}
use filo_j.Shared.Message.{Message, is_malformed}
use filo_j.Shared.World.{World, Published, Faults}
use filo_j.Shared.World.Laws.{SameRows, Extends, Extends-refl}
use filo_j.Lifecycle.{Life, EndsWithout, Life-EndsWithout}
use filo_j.SecurityScanner.Frame.{ScanReply, Frame}
use filo_j.SecurityScanner.Worker.{
  Libraries, is_clean, uuid_of, parse, scan_parsed, scan_file, nack,
}
use filo_j.SecurityScanner.Worker.Laws.{Grows-refl}
use filo_j.SecurityScanner.Worker.Handlers.{nack-Growing}
use filo_j.SecurityScanner.Worker.Outcome.{scan_parsed-Growing}

not_tasks :
    (exchange : String)
    → (exchange ≡ "system.events") ⊎ (exchange ≡ "webhook.retry")
    → exchange ≢ "work.tasks"
not_tasks exchange (inl e) h = ground (arith, eq_iff "system.events" "work.tasks", sym e ∙ h)
not_tasks exchange (inr e) h = ground (arith, eq_iff "webhook.retry" "work.tasks", sym e ∙ h)

module _ (lib : Libraries) (fault : Faults) (scan : Exec World Exn ScanReply) where
  abbrev key_of_id : Result Exn ℕ → Option ℕ
  key_of_id (ok k) = some k
  key_of_id (err e) = none

  abbrev parsed_key : Result Exn (Json × Json × Dict) → Option ℕ
  parsed_key (ok (job_id, file_key, payload)) = key_of_id (uuid_of lib fault job_id)
  parsed_key (err e) = none

  -- The job that a message is about, if it names one
  abbrev pub job_key : Message → Option ℕ
  job_key message = parsed_key (parse lib fault scan message.body)

  named : (k : ℕ) (x : Result Exn ℕ) (id : ℕ) → key_of_id x ≡ some k → x ≡ ok id → id ≡ k
  named k x id h e = ground arith

  parsed-Life :
      (judged : Bool → Type 0) (k n : ℕ) (x : Result Exn (Json × Json × Dict)) (f : Frame)
      → parsed_key x ≡ some k
      → Keeps SameRows scan
      → ((w : World) (reply : ScanReply) → (scan w).0 ≡ ok reply → judged (is_clean reply))
      → Life judged k f.world.jobs (scan_parsed lib fault scan n x f).1.world.jobs
  parsed-Life judged k n (err e) f h same judges = ground arith
  parsed-Life judged k n (ok (job_id, file_key, payload)) f h same judges =
      (scan_parsed-Growing lib fault k judged (λ _. Unit) (λ _ _. tt) (λ _ _. tt) scan same judges
        (λ _ _ _ _ _ _. tt) job_id (λ id e. named k (uuid_of lib fault job_id) id h e) n file_key
        payload f.world f
        (Grows-refl lib fault k judged (λ _. Unit) (λ _ _. tt) (λ _ _. tt) f.world)).0

  -- Whichever calls fail, a run of `scan_file` on a message that names the job `k` commits no status
  -- that the answers of ClamAV do not bear out: if ClamAV never answers that the file is clean, the rows
  -- of `k` are what they were or have the status `scanning`, `queued_for_retry`, `failed`, `infected` or
  -- `quarantined`; if it never answers that it is not, `scanning`, `queued_for_retry`, `failed`, `clean`
  -- or `completed`. No other job's row changes. The scan itself leaves rows and messages alone.
  pub scan_file-EndsWithout :
      (verdict : Bool) (k : ℕ) (message : Message) (f : Frame)
      → job_key message ≡ some k
      → Keeps SameRows scan
      → ((w : World) (reply : ScanReply) → (scan w).0 ≡ ok reply → is_clean reply ≢ verdict)
      → EndsWithout verdict k f.world.jobs (scan_file lib fault scan message f).1.world.jobs
  unfolding scan_file
  scan_file-EndsWithout verdict k message f h same never =
      Life-EndsWithout verdict k f.world.jobs (scan_file lib fault scan message f).1.world.jobs (
        parsed-Life (λ b. b ≢ verdict) k message.delivery_count (parse lib fault scan message.body)
          f h same never)

  abbrev IsNoTask : Published → Type 0
  IsNoTask m = m.exchange ≢ "work.tasks"

  event_IsNoTask : (m : Published) → m.exchange ≡ "system.events" → IsNoTask m
  event_IsNoTask m e = not_tasks m.exchange (inl e)

  webhook_IsNoTask : (m : Published) → m.exchange ≡ "webhook.retry" → IsNoTask m
  webhook_IsNoTask m e = not_tasks m.exchange (inr e)

  abbrev NoTask : World → World → Type 0
  NoTask w0 w = Extends IsNoTask w0.published w.published

  module _ (same : Keeps SameRows scan)
      (unclean : (w : World) (reply : ScanReply)
        → (scan w).0 ≡ ok reply
        → is_clean reply ≡ false) where
    -- No step of a run sends a task, as no reply is clean.
    named-NoTask :
        (k : ℕ) (n : ℕ) (job_id file_key : Json) (payload : Dict) (f : Frame)
        → ((id : ℕ) → uuid_of lib fault job_id ≡ ok id → id ≡ k)
        → NoTask f.world (scan_parsed lib fault scan n (ok (job_id, file_key, payload)) f).1.world
    named-NoTask k n job_id file_key payload f names =
        (scan_parsed-Growing lib fault k (λ _. Unit) IsNoTask event_IsNoTask webhook_IsNoTask scan
          same (λ _ _ _. tt) (λ w reply h clean. ground (arith, unclean w reply h)) job_id names n
          file_key payload f.world f
          (Grows-refl lib fault k (λ _. Unit) IsNoTask event_IsNoTask webhook_IsNoTask f.world)).1

    id-NoTask :
        (n : ℕ) (job_id file_key : Json) (payload : Dict) (f : Frame) (x : Result Exn ℕ)
        → uuid_of lib fault job_id ≡ x
        → NoTask f.world (scan_parsed lib fault scan n (ok (job_id, file_key, payload)) f).1.world
    id-NoTask n job_id file_key payload f (ok k) e =
        named-NoTask k n job_id file_key payload f (λ id h. ground (arith, e, h))
    id-NoTask n job_id file_key payload f (err x) e =
        named-NoTask 0 n job_id file_key payload f (λ id h. ground (arith, e, h))

    parsed-NoTask :
        (n : ℕ) (x : Result Exn (Json × Json × Dict)) (f : Frame)
        → NoTask f.world (scan_parsed lib fault scan n x f).1.world
    parsed-NoTask n (ok (job_id, file_key, payload)) f =
        id-NoTask n job_id file_key payload f (uuid_of lib fault job_id) refl
    parsed-NoTask n (err e) f =
        if-rule (λ m. NoTask f.world (m f).1.world) (is_malformed e.class) (nack lib fault scan)
          (raise e)
          (λ _.
            (nack-Growing lib fault 0 (λ _. Unit) IsNoTask event_IsNoTask webhook_IsNoTask scan same
              (λ _ _ _. tt) (λ w reply h clean. ground (arith, unclean w reply h)) f.world f
              (Grows-refl lib fault 0 (λ _. Unit) IsNoTask event_IsNoTask webhook_IsNoTask
                f.world)).1)
          (λ _. Extends-refl IsNoTask f.world.published)

    -- If ClamAV never answers that the file is clean, a run of `scan_file` sends nothing to
    -- `work.tasks`, so the image processor does not get the file, whichever calls fail and whatever
    -- the message holds; and no message that was there is lost. The scan itself leaves rows and
    -- messages alone.
    pub scan_file-NoTask :
        (message : Message) (f : Frame)
        → Extends
            (λ m. m.exchange ≢ "work.tasks")
            f.world.published
            (scan_file lib fault scan message f).1.world.published
    unfolding scan_file
    scan_file-NoTask message f =
        parsed-NoTask message.delivery_count (parse lib fault scan message.body) f
