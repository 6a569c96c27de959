-- ===== src/SecurityScanner/Worker/Quiet.antt =====
-- security_scanner/worker.py: a run of `scan_file` in which no call fails, up to the verdict.
use filo_j.Prelude.{
  ℕ, String, ◌≡◌, refl, sym, subst, ap, ◌∙◌, true, Option, none, some, [], ◌∷◌, select, nat_eq,
  Result, ok, err, Exec, lift, modify, gets, catch, arith, ◌==◌, ◌>>=◌, ◌>>◌,
}
use filo_j.Prelude.Rules.{bind-ok}
use filo_j.Shared.Errors.{Exn}
use filo_j.Shared.Models.{Job, FileMetaData}
use filo_j.Shared.Values.{Json, text, Dict}
use filo_j.Shared.World.{Published, World, tick, quiet}
use filo_j.Shared.Rows.{select_one, set_job}
use filo_j.Shared.Message.{decoded}
use filo_j.Shared.Storage.{upload_bucket, has_object, get_file_stream}
use filo_j.Shared.Quiet.{sent, IsOpen, publish-quiet, select_one-quiet, get_file_stream-quiet}
use filo_j.SecurityScanner.Frame.{ScanReply, Frame, on_world}
use filo_j.SecurityScanner.Worker.{
  Libraries, uuid_of, on_failure, job_transaction, publish_audit, on_reply, run_scan, developer_of,
  scan_row, scan_found, scan_job, scan_block, on_scan_error, scan_file,
}

-- The message of an audit event
abbrev pub audit : Json → String → String → Published
audit job_id routing_key action = record {
  exchange = "system.events";
  routing_key = routing_key;
  payload =
      ("job_id", job_id)
      ∷ ("service", text "scanner_worker")
      ∷ ("routing_key", text routing_key)
      ∷ ("action", text action)
      ∷ [];
  headers = none;
}

pub publish_audit-quiet :
    (lib : Libraries) (job_id : Json) (key action : String) (w : World)
    → IsOpen "system.events" w
    → publish_audit lib quiet job_id key action w ≡ (ok tt, sent (audit job_id key action) w)
unfolding publish_audit
publish_audit-quiet lib job_id key action w ready =
    publish-quiet "system.events" key
      (("job_id", job_id)
        ∷ ("service", text "scanner_worker")
        ∷ ("routing_key", text key)
        ∷ ("action", text action)
        ∷ [])
      none w ready

on_world-quiet :
    {A : Type 0} (m : Exec World Exn A) (f : Frame) (a : A) (w : World)
    → m f.world ≡ (ok a, w)
    → on_world m f ≡ (ok a, record f { world = w })
on_world-quiet {A = A} m f a w e =
    ap (λ (r : Result Exn A × World). (r.0, record f { world = r.1 })) e

-- The scan answers, and changes no more than the number of calls.
abbrev pub Answers : Exec World Exn ScanReply → ScanReply → Type 0
Answers scan reply = (w : World) → (calls : ℕ) × (scan w ≡ (ok reply, record w { calls = calls }))

module _ (lib : Libraries) (scan : Exec World Exn ScanReply) (reply : ScanReply)
    (answers : Answers scan reply) where
  run_scan-quiet :
      (job_id : Json) (key : String) (w : World)
      → IsOpen "system.events" w
      → has_object upload_bucket key w.objects ≡ true
      → (calls : ℕ) × (run_scan lib quiet scan job_id key w ≡ (
        ok reply,
        record (sent (audit job_id "event.scanner.scan_start" "security scan started") w) {
          calls = calls;
        },
      ))
  unfolding run_scan
  run_scan-quiet job_id key w ready there =
      let w1 = sent (audit job_id "event.scanner.scan_start" "security scan started") w in
      let (c1, downloaded) = get_file_stream-quiet key (lib.chunks key) w1 there in
      let (c2, scanned) = answers (record w1 { calls = c1 }) in
      (
        c2,
        bind-ok
            (publish_audit lib quiet job_id "event.scanner.scan_start" "security scan started" w)
            (λ _. get_file_stream quiet key (lib.chunks key) >> scan) w w1 tt
            (publish_audit-quiet lib job_id _ _ w ready)
            (bind-ok (get_file_stream quiet key (lib.chunks key) w1) (λ _. scan) w1
              (record w1 { calls = c1 }) tt downloaded scanned),
      )

  module _ (job : Job) (file : FileMetaData) (s key d : String) (w : World) where
    abbrev pub task : Dict
    task = ("job_id", text s) ∷ ("file_hash", text key) ∷ ("developer_id", text d) ∷ []

    -- The world when the scan begins
    abbrev pub found : World
    found = tick (set_job job.id (λ row. record row { status = "scanning" }) (tick (tick w)))

    -- And when ClamAV has answered
    abbrev pub scanned : ℕ → World
    scanned calls =
        record (sent (audit (text s) "event.scanner.scan_start" "security scan started") found) {
          calls = calls;
        }

    abbrev pub developer : Json
    developer = developer_of lib quiet scan (text d) file

    -- The run returns, and the rest of the work was done on the world at the answer.
    abbrev pub Ends : (ℕ → World) → Result Exn (Unit {0}) × Frame → Type 0
    Ends finish r = (calls : ℕ) × (r.0 ≡ ok tt) × (r.1.world ≡ finish calls)

    module _ (uuid : lib.parse_uuid s ≡ some job.id)
        (one_job : select (λ (row : Job). nat_eq row.id job.id) w.jobs ≡ job ∷ [])
        (one_file : select (λ (row : FileMetaData). row.storage_location == key) w.files
          ≡ file ∷ [])
        (ready : IsOpen "system.events" w) (there : has_object upload_bucket key w.objects ≡ true)
        (finish : ℕ → World)
        (finished : (calls : ℕ)
          → on_reply lib quiet job file (text s) key task developer reply (scanned calls)
            ≡ (ok tt, finish calls)) where
      -- The frame when the file was found
      abbrev begun : Frame → Frame
      begun f = record f { world = found; job = some (some job); developer_id = text d }

      scan_row-quiet :
          (f : Frame) → Ends finish (scan_row lib quiet scan job (text s) key task file (begun f))
      unfolding scan_row set_job
      scan_row-quiet f =
          let (calls, run) = run_scan-quiet (text s) key found ready there in
          let g = record (begun f) { developer_id = developer } in
          let rest = λ (reply : ScanReply).
            modify (λ f. record f { scan_res = some reply })
            >> (gets (λ f. f.developer_id) >>= λ developer_id.
                on_world (on_reply lib quiet job file (text s) key task developer_id reply)) in
          let last = record g { world = scanned calls; scan_res = some reply } in
          let all =
            bind-ok (on_world (run_scan lib quiet scan (text s) key) g) rest g
              (record g { world = scanned calls }) reply
              (on_world-quiet (run_scan lib quiet scan (text s) key) g reply (scanned calls) run)
              (on_world-quiet (on_reply lib quiet job file (text s) key task developer reply) last
                tt (finish calls) (finished calls)) in
          (calls, ap (λ r. r.0) all, ap (λ r. r.1.world) all)

      -- The frame of a message that was parsed
      abbrev parsed : Frame → Frame
      parsed f = record f { world = w; developer_id = text d }

      scan_block-row :
          (f : Frame)
          → scan_block lib quiet scan (text s) (text key) task (parsed f)
            ≡ scan_row lib quiet scan job (text s) key task file (begun f)
      unfolding scan_block set_job
      scan_block-row f =
          let find_job =
            on_world (select_one quiet (λ w. w.jobs) (λ (row : Job). nat_eq row.id job.id)) in
          let find_file = on_world (
            select_one quiet (λ w. w.files)
              (λ (row : FileMetaData). row.storage_location == key)) in
          let started =
            set_job job.id (λ row. record row { status = "scanning" }) (tick (tick w)) in
          let rest = λ (job : Option Job).
            modify (λ f. record f { job = some job })
            >> scan_job lib quiet scan (text s) (text key) task job in
          let f3 = record (parsed f) { world = started; job = some (some job) } in
          ap
            (λ x.
              (lift x >>= λ id.
              on_world (select_one quiet (λ w. w.jobs) (λ (row : Job). nat_eq row.id id)) >>= rest)
                (parsed f))
            (uuid_known uuid)
          ∙ bind-ok (find_job (parsed f)) rest (parsed f) (record (parsed f) { world = tick w })
              (some job)
              (on_world-quiet (select_one quiet (λ w. w.jobs) (λ (row : Job). nat_eq row.id job.id))
                (parsed f) (some job) (tick w)
                (select_one-quiet (λ w. w.jobs) (λ row. nat_eq row.id job.id) w (job ∷ []) one_job))
              (bind-ok (find_file f3) (scan_found lib quiet scan job (text s) key task) f3
                (record f3 { world = found }) (some file)
                (on_world-quiet
                  (select_one quiet (λ w. w.files)
                    (λ (row : FileMetaData). row.storage_location == key))
                  f3 (some file) found
                  (select_one-quiet (λ w. w.files) (λ row. row.storage_location == key) started
                    (file ∷ []) one_file))
                refl)
        where
          uuid_known : lib.parse_uuid s ≡ some job.id → uuid_of lib quiet (text s) ≡ ok job.id
          uuid_known e = ground (arith, e)

      passed :
          (r : Result Exn (Unit {0}) × Frame) (handler handler' : Exn → Exec Frame Exn (Unit {0}))
          (f : Frame)
          → Ends finish r
          → Ends finish (catch (catch (λ (_ : Frame). r) handler) handler' f)
      passed (ok _, f') handler handler' f h = h
      passed (err e, f') handler handler' f (calls, h, h') = absurd (cc)

      -- The whole run, on the message that the upload sends
      pub scan_file-quiet :
          (n : ℕ) (f : Frame)
          → Ends finish (
              scan_file lib quiet scan
                (record { body = decoded task; delivery_count = n })
                (record f { world = w }))
      unfolding scan_file job_transaction
      scan_file-quiet n f =
          passed (scan_block lib quiet scan (text s) (text key) task (parsed f))
            (on_failure lib quiet (text s)) (on_scan_error lib quiet scan (text s) n) (parsed f)
            (subst (Ends finish) (sym (scan_block-row f)) (scan_row-quiet f))
