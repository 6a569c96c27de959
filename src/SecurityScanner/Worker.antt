-- ===== src/SecurityScanner/Worker.antt =====
-- security_scanner/worker.py: `scan_file`, over a parameter `scan`, which is `ClamAVClient.scan`.
pub mod Laws
pub mod Quiet
pub mod Verdicts
pub mod Runs
pub mod Handlers
pub mod Outcome
pub mod Contract
pub mod Ambiguity
use Prim.Native.String.{◌++◌ as ◌++ₛ◌}
use filo_j.Prelude.{
  ℕ, suc, String, Bool, true, false, not, ◌&&◌, Option, none, some, [], ◌∷◌, Result, ok, err, Exec,
  pure, raise, raise_if, lift, gets, catch, modify, lookup, nat_eq, leb, if◌then◌else◌, ◌==◌, ◌>>=◌,
  ◌>>◌, ◌+◌,
}
use filo_j.Shared.Errors.{Exn, ExnClass, exn, value_error, type_error, system_exit, attribute_error}
use filo_j.Shared.Config.{allowed_files}
use filo_j.Shared.Models.{Job, FileMetaData}
use filo_j.Shared.Values.{Json, null, text, Dict, get, truthy}
use filo_j.Shared.World.{World, Faults, call}
use filo_j.Shared.Rows.{select_one, set_job, set_file}
use filo_j.Shared.Message.{Body, decoded, undecodable, not_a_dict, Message, field, is_malformed}
use filo_j.Shared.Broker.{publish}
use filo_j.Shared.Storage.{get_file_stream, move_to_quarantine}
use filo_j.Shared.Webhook.{is_exception, dispatch_to_webhook}
use filo_j.SecurityScanner.Frame.{ScanReply, Frame, on_world, local}

pub record Libraries : Type 0 where
  pub parse_uuid : String → Option ℕ
  pub show_uuid : ℕ → String
  pub show : ℕ → String
  pub lower : String → String
  pub strip : String → String
  -- `s[:n]`
  pub first : ℕ → String → String
  -- `{"error": message}`, and the reply of ClamAV as it is stored
  pub error_data : String → Json
  pub scan_data : ScanReply → Json
  -- How many chunks an object is read in
  pub chunks : String → ℕ

abbrev pub max_delivery_count : ℕ
max_delivery_count = 3

abbrev pub is_connection_error : ExnClass → Bool
is_connection_error ExnClass.connection_error = true
is_connection_error _ = false

abbrev pub is_buffer_too_long : ExnClass → Bool
is_buffer_too_long ExnClass.buffer_too_long_error = true
is_buffer_too_long _ = false

-- `status_tuple[0] == "OK"`; without an entry the verdict is "ERROR".
abbrev pub is_clean : ScanReply → Bool
is_clean reply = elim (reply.stream) [ none ↦ false | some (verdict, threat) ↦ verdict == "OK" ]

abbrev pub is_image : FileMetaData → Bool
is_image file = elim (lookup file.type allowed_files) [ none ↦ false | some kind ↦ kind == "image" ]

module _ (lib : Libraries) (fault : Faults) where
  -- `uuid.UUID(job_id)`
  abbrev pub uuid_of : Json → Result Exn ℕ
  uuid_of (text s) = elim (lib.parse_uuid s) [
    | some id ↦ ok id
    | none ↦ err (exn value_error "badly formed hexadecimal UUID string")
  ]
  uuid_of _ = err (exn type_error "not subscriptable")

  abbrev pub mark : String → Json → Job → Job
  mark status result job = record job { status = status; result_data = result }

  -- What `job_transaction` does with the job of a failed block, before it raises again
  abbrev mark_found : Option Job → String → Json → Exec World Exn (Unit {0})
  mark_found none status result = pure tt
  mark_found (some job) status result = call fault (set_job job.id (mark status result))

  unfoldable pub mark_job : Json → String → Json → Exec World Exn (Unit {0})
  mark_job job_id status result = do
    id ← lift (uuid_of job_id)
    job ← select_one fault (λ w. w.jobs) (λ job. nat_eq job.id id)
    mark_found job status result

  abbrev pub on_failure : Json → Exn → Exec Frame Exn (Unit {0})
  on_failure job_id e =
      if is_connection_error e.class
      then (on_world (
            mark_job job_id "queued_for_retry"
              (lib.error_data "clamav connection dropped, retrying"))
          >> raise e)
      else if is_exception e.class
      then (on_world (mark_job job_id "failed" (lib.error_data (lib.lower e.message))) >> raise e)
      else raise e

  unfoldable pub job_transaction : Json → Exec Frame Exn (Unit {0}) → Exec Frame Exn (Unit {0})
  job_transaction job_id block = catch block (on_failure job_id)

  -- `_publish_audit`
  unfoldable pub publish_audit : Json → String → String → Exec World Exn (Unit {0})
  publish_audit job_id routing_key action =
      publish fault "system.events" routing_key
        (("job_id", job_id)
          ∷ ("service", text "scanner_worker")
          ∷ ("routing_key", text routing_key)
          ∷ ("action", text action)
          ∷ [])
        none

  abbrev pub notify : String → ℕ → String → ScanReply → Json → Exec World Exn (Unit {0})
  notify event file_id status reply developer_id =
      dispatch_to_webhook lib.strip fault event (lib.show_uuid file_id) status (lib.scan_data reply)
        developer_id

  -- An infected file
  unfoldable pub quarantine :
      Job → FileMetaData → String → ScanReply → Json → Exec World Exn (Unit {0})
  quarantine job file file_key reply developer_id = do
    move_to_quarantine fault file_key
    call fault (λ w.
        set_file file.id (λ row. record row { bucket = "quarantine" })
          (set_job job.id (λ row. record row { status = "quarantined" }) w))
    notify "event.job.quarantined" job.file_id "infected" reply developer_id

  -- A clean file: an image goes on to the image processor, and any other is done.
  unfoldable pub pass_on :
      Job → FileMetaData → Json → Dict → ScanReply → Json → Exec World Exn (Unit {0})
  pass_on job file job_id payload reply developer_id =
      if is_image file
      then (do
        publish fault "work.tasks" "task.image.process" payload none
        publish_audit job_id "event.scanner.image_queued" "image submitted to processing")
      else (do
        call fault (set_job job.id (λ row. record row { status = "completed" }))
        notify "event.job.completed" job.file_id "completed" reply developer_id)

  abbrev pub final_status : ScanReply → String
  final_status reply = if is_clean reply then "clean" else "infected"

  -- What follows once ClamAV has answered
  unfoldable pub on_reply :
      Job → FileMetaData → Json → String → Dict → Json → ScanReply → Exec World Exn (Unit {0})
  on_reply job file job_id file_key payload developer_id reply = do
    publish_audit job_id "event.scanner.scan_success"
        ("security scan completed: status - " ++ₛ final_status reply)
    call fault (set_job job.id (mark (final_status reply) (lib.scan_data reply)))
    if is_clean reply
        then pass_on job file job_id payload reply developer_id
        else quarantine job file file_key reply developer_id

  module _ (scan : Exec World Exn ScanReply) where
    -- The audit event, the download into the spool file, and the scan
    unfoldable pub run_scan : Json → String → Exec World Exn ScanReply
    run_scan job_id file_key = do
      publish_audit job_id "event.scanner.scan_start" "security scan started"
      get_file_stream fault file_key (lib.chunks file_key)
      scan

    abbrev pub developer_of : Json → FileMetaData → Json
    developer_of developer_id file =
        if truthy developer_id then developer_id else text file.developer_id

    unfoldable pub scan_row : Job → Json → String → Dict → FileMetaData → Exec Frame Exn (Unit {0})
    scan_row job job_id file_key payload file = do
      modify (λ f. record f { developer_id = developer_of f.developer_id file })
      reply ← on_world (run_scan job_id file_key)
      modify (λ f. record f { scan_res = some reply })
      developer_id ← gets (λ f. f.developer_id)
      on_world (on_reply job file job_id file_key payload developer_id reply)

    abbrev pub scan_found :
        Job → Json → String → Dict → Option FileMetaData → Exec Frame Exn (Unit {0})
    scan_found job job_id file_key payload none =
        raise (exn value_error ("FileMetaData not found for key: " ++ₛ file_key))
    scan_found job job_id file_key payload (some file) = scan_row job job_id file_key payload file

    -- A key that is no text is refused by the database.
    abbrev pub key_of : Json → Result Exn String
    key_of (text s) = ok s
    key_of _ = err (exn type_error "expected str")

    abbrev pub scan_job : Json → Json → Dict → Option Job → Exec Frame Exn (Unit {0})
    scan_job job_id file_key payload none = pure tt
    scan_job job_id file_key payload (some job) = do
      on_world (call fault (set_job job.id (λ row. record row { status = "scanning" })))
      key ← lift (key_of file_key)
      file ← on_world (select_one fault (λ w. w.files) (λ file. file.storage_location == key))
      scan_found job job_id key payload file

    -- The block of `job_transaction`
    unfoldable pub scan_block : Json → Json → Dict → Exec Frame Exn (Unit {0})
    scan_block job_id file_key payload = do
      id ← lift (uuid_of job_id)
      job ← on_world (select_one fault (λ w. w.jobs) (λ job. nat_eq job.id id))
      modify (λ f. record f { job = some job })
      scan_job job_id file_key payload job

    -- The `file_id` of a job that may be `None`
    abbrev pub file_id_of : Option Job → Result Exn ℕ
    file_id_of none = err (exn attribute_error "'NoneType' object has no attribute 'file_id'")
    file_id_of (some job) = ok job.file_id

    -- `except Exception`, for a message that was delivered `delivery_count` times before
    unfoldable pub notify_failed : Exec Frame Exn (Unit {0})
    notify_failed = do
      job ← (λ f. (local f.job, f))
      file_id ← lift (file_id_of job)
      reply ← (λ f. (local f.scan_res, f))
      developer_id ← gets (λ f. f.developer_id)
      on_world (notify "event.job.failed" file_id "failed" reply developer_id)

    unfoldable pub give_up : Json → ℕ → Exn → Exec Frame Exn (Unit {0})
    give_up job_id delivery_count e =
        if leb max_delivery_count delivery_count
        then (do
          notify_failed
          on_world (publish_audit job_id "event.scanner.scan_fail" "moved to dlx exchange")
          raise e)
        else (do
          on_world (
              publish_audit job_id "event.scanner.scan_fail" (
                "error: "
                ++ₛ (lib.first 50 e.message
                    ++ₛ (", retrying (attempt " ++ₛ (lib.show (delivery_count + 1) ++ₛ "/3)")))))
          raise e)

    -- `await message.nack(requeue=False)`
    abbrev pub nack : Exec Frame Exn (Unit {0})
    nack = on_world (call fault (λ w. w)) >> modify (λ f. record f { nacked = true })

    -- The three `except` clauses of `scan_file`
    unfoldable pub on_scan_error : Json → ℕ → Exn → Exec Frame Exn (Unit {0})
    on_scan_error job_id delivery_count e =
        if is_connection_error e.class
        then (on_world (publish_audit job_id "event.scanner.scan_fail" "queued_for_retry")
            >> raise (exn system_exit "1"))
        else if is_buffer_too_long e.class
        then (on_world
              (publish_audit job_id "event.scanner.scan_fail" "scan failed: buffer too long")
            >> nack)
        else if is_exception e.class
        then give_up job_id delivery_count e
        else raise e

    -- `data["job_id"]`, `data["file_hash"]` and `data.get("developer_id")`
    abbrev parse : Body → Result Exn (Json × Json × Dict)
    parse (undecodable e) = err e
    parse not_a_dict = err (exn type_error "list indices must be integers or slices, not str")
    parse (decoded payload) = elim (field "job_id" payload) [
      | err e ↦ err e
      | ok job_id ↦ elim (field "file_hash" payload) [
        | err e ↦ err e
        | ok file_key ↦ ok (job_id, file_key, payload)
      ]
    ]

    abbrev pub scan_parsed : ℕ → Result Exn (Json × Json × Dict) → Exec Frame Exn (Unit {0})
    scan_parsed delivery_count (err e) = if is_malformed e.class then nack else raise e
    scan_parsed delivery_count (ok (job_id, file_key, payload)) =
        (modify (λ f. record f { developer_id = get "developer_id" null payload })
          >> catch (job_transaction job_id (scan_block job_id file_key payload))
              (on_scan_error job_id delivery_count))

    unfoldable pub scan_file : Message → Exec Frame Exn (Unit {0})
    scan_file message = scan_parsed message.delivery_count (parse message.body)
