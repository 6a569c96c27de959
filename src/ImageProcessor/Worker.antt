-- ===== src/ImageProcessor/Worker.antt =====
-- image_processor/worker.py: `process_image`, within `message.process`, which acknowledges the message
-- if it returns and puts it back into the queue if it raises. A job id that is no text is taken to be
-- one that cannot be sliced.
pub mod Copies
pub mod Laws
pub mod Whole
pub mod Quiet
pub mod Runs
use Prim.Native.String.{◌++◌ as ◌++ₛ◌}
use filo_j.Prelude.{
  ℕ, String, Bool, true, false, Option, none, some, List, [], ◌∷◌, ◌++◌, map, Result, ok, err, Exec,
  pure, raise, lift, catch, nat_eq, leb, if◌then◌else◌, ◌==◌, ◌>>=◌, ◌>>◌, ◌+◌,
}
use filo_j.Shared.Errors.{Exn, ExnClass, exn, value_error, type_error, attribute_error}
use filo_j.Shared.Models.{Job, FileMetaData}
use filo_j.Shared.Values.{Json, text}
use filo_j.Shared.World.{World, Faults, call}
use filo_j.Shared.Rows.{select_one, select_first, set_job, set_file}
use filo_j.Shared.Message.{Body, decoded, undecodable, not_a_dict, Message, field, is_malformed}
use filo_j.Shared.Broker.{publish}
use filo_j.Shared.Webhook.{is_exception}
use filo_j.Shared.Storage.{processed_bucket, upload_file, get_file_stream}
use filo_j.ImageProcessor.Rotation.{Pillow, rotate_image}

-- Python, and what Pillow does besides turning an image
pub record Libraries (p : Pillow) : Type 0 where
  pub parse_uuid : String → Option ℕ
  pub show : ℕ → String
  pub lower : String → String
  -- `s[:n]`, and `s.split(".")[0]`
  pub first : ℕ → String → String
  pub stem : String → String
  -- How many chunks an object is read in
  pub chunks : String → ℕ
  -- `Image.open` of the object with this key, converted to RGB
  pub open_rgb : String → Result Exn p.Image
  -- The pixels without the metadata, and a thumbnail saved in a format
  pub clean : p.Image → Result Exn p.Image
  pub save : p.Image → ℕ → String → Result Exn (Unit {0})

pub data Verdict : Type 0 where
  handled discarded : Verdict

-- One entry of `save_payload`
pub record Copy : Type 0 where
  pub key : String
  pub content_type : String
  pub size : String

abbrev pub max_delivery_count : ℕ
max_delivery_count = 3

abbrev pub is_memory_error : ExnClass → Bool
is_memory_error ExnClass.memory_error = true
is_memory_error _ = false

abbrev pub is_cancelled : ExnClass → Bool
is_cancelled ExnClass.cancelled_error = true
is_cancelled ExnClass.keyboard_interrupt = true
is_cancelled _ = false

abbrev pub sizes : List ℕ
sizes = 128 ∷ 512 ∷ 1024 ∷ []

abbrev pub formats : List String
formats = "WEBP" ∷ "JPEG" ∷ []

module _ (p : Pillow) (lib : Libraries p) (fault : Faults) where
  abbrev pub uuid_of : Json → Result Exn ℕ
  uuid_of (text s) = elim (lib.parse_uuid s) [
    | some id ↦ ok id
    | none ↦ err (exn value_error "badly formed hexadecimal UUID string")
  ]
  uuid_of _ = err (exn type_error "not subscriptable")

  abbrev pub text_of : Json → Result Exn String
  text_of (text s) = ok s
  text_of _ = err (exn attribute_error "no attribute 'split'")

  -- `_publish_audit`
  unfoldable pub publish_audit : Json → String → String → Exec World Exn (Unit {0})
  publish_audit job_id routing_key action =
      publish fault "system.events" routing_key
        (("job_id", job_id)
          ∷ ("service", text "image_processor")
          ∷ ("routing_key", text routing_key)
          ∷ ("action", text action)
          ∷ [])
        none

  abbrev pub copy_of : String → ℕ → String → Copy
  copy_of file_hash size format = record {
    key = file_hash ++ₛ ("/" ++ₛ (lib.show size ++ₛ ("." ++ₛ lib.lower format)));
    content_type = "image/" ++ₛ lib.lower format;
    size = lib.show size;
  }

  -- The inner loop: `thumb.save` for each format
  abbrev pub save_formats : p.Image → String → ℕ → List String → Exec World Exn (List Copy)
  save_formats img file_hash size [] = pure []
  save_formats img file_hash size (format ∷ formats) = do
    lift (lib.save img size format)
    copies ← save_formats img file_hash size formats
    pure (copy_of file_hash size format ∷ copies)

  -- The outer loop
  unfoldable pub save_copies : p.Image → String → List ℕ → Exec World Exn (List Copy)
  save_copies img file_hash [] = pure []
  save_copies img file_hash (size ∷ sizes) = do
    copies ← save_formats img file_hash size formats
    rest ← save_copies img file_hash sizes
    pure (copies ++ rest)

  -- The loop over `save_payload`
  unfoldable pub upload_copies : List Copy → Exec World Exn (Unit {0})
  upload_copies [] = pure tt
  upload_copies (copy ∷ copies) = do
    upload_file fault copy.key processed_bucket (some copy.content_type)
    upload_copies copies

  -- From the download to the last upload
  unfoldable pub make_copies : Json → String → String → Exec World Exn (Unit {0})
  make_copies job_id file_key file_hash = do
    publish_audit job_id "event.image_processor.process_start" "started image processing"
    get_file_stream fault file_key (lib.chunks file_key)
    img ← lift (lib.open_rgb file_key)
    turned ← lift (rotate_image p img)
    cleaned ← lift (lib.clean turned)
    copies ← save_copies cleaned file_hash sizes
    upload_copies copies

  abbrev pub with_status : String → Job → Job
  with_status status row = record row { status = status }

  unfoldable pub process_file : Job → FileMetaData → Json → String → Exec World Exn (Unit {0})
  process_file job file job_id file_key = do
    call fault (set_job job.id (with_status "processing"))
    make_copies job_id file_key file.upload_id
    call fault (λ w.
        set_file file.id (λ row. record row { bucket = processed_bucket })
          (set_job job.id (with_status "completed") w))
    publish_audit job_id "event.image_process.complete" "processing complete"

  abbrev pub with_file : Job → Json → Json → Option FileMetaData → Exec World Exn (Unit {0})
  with_file job job_id file_key none = pure tt
  with_file job job_id file_key (some file) = do
    key ← lift (text_of file_key)
    if file.upload_id == lib.stem key then process_file job file job_id key else pure tt

  -- `selectinload(Job.file)` is a query of its own, made if there is a job.
  abbrev pub with_job : Json → Json → Option Job → Exec World Exn (Unit {0})
  with_job job_id file_key none = pure tt
  with_job job_id file_key (some job) = do
    file ← select_first fault (λ w. w.files) (λ file. nat_eq file.id job.file_id)
    with_file job job_id file_key file

  -- The second `try`
  unfoldable pub image_block : Json → Json → Exec World Exn (Unit {0})
  image_block job_id file_key = do
    id ← lift (uuid_of job_id)
    job ← select_one fault (λ w. w.jobs) (λ job. nat_eq job.id id)
    with_job job_id file_key job

  abbrev pub failure_action : Exn → ℕ → String
  failure_action e delivery_count =
      if leb max_delivery_count delivery_count
      then lib.first 20 (lib.lower e.message) ++ₛ " | move to dlx"
      else (lib.first 20 (lib.lower e.message)
          ++ₛ (" | retry count " ++ₛ (lib.show (delivery_count + 1) ++ₛ "/3")))

  -- `job_id[:8]`, for the log
  abbrev pub sliced : Json → Result Exn (Unit {0})
  sliced (text s) = ok tt
  sliced _ = err (exn type_error "not subscriptable")

  -- Its four `except` clauses
  unfoldable pub on_image_error : Json → ℕ → Exn → Exec World Exn (Unit {0})
  on_image_error job_id delivery_count e =
      if is_memory_error e.class
      then (lift (sliced job_id)
          >> publish_audit job_id "event.image_process.fail" "Memory Error , processing failed")
      else if is_cancelled e.class
      then pure tt
      else if is_exception e.class
      then (do
        lift (sliced job_id)
        publish_audit job_id "event.image_process.fail" (failure_action e delivery_count)
        raise e)
      else raise e

  -- `data["job_id"]` and `data["file_hash"]`
  abbrev pub parse : Body → Result Exn (Json × Json)
  parse (undecodable e) = err e
  parse not_a_dict = err (exn type_error "list indices must be integers or slices, not str")
  parse (decoded payload) = elim (field "job_id" payload) [
    | err e ↦ err e
    | ok job_id ↦ elim (field "file_hash" payload) [
      | err e ↦ err e
      | ok file_key ↦ ok (job_id, file_key)
    ]
  ]

  abbrev pub process_parsed : ℕ → Result Exn (Json × Json) → Exec World Exn Verdict
  process_parsed delivery_count (err e) =
      if is_malformed e.class then (call fault (λ w. w) >> pure discarded) else raise e
  process_parsed delivery_count (ok (job_id, file_key)) =
      (catch (image_block job_id file_key) (on_image_error job_id delivery_count) >> pure handled)

  unfoldable pub process_image : Message → Exec World Exn Verdict
  process_image message = process_parsed message.delivery_count (parse message.body)
