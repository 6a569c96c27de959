-- ===== src/LoggerService.antt =====
-- logger_service/worker.py: `process_batch` and `audit_logger`. A message has a tag, by which it is
-- acknowledged, once, and the loop is given the messages that come until the queue is closed.
pub mod Batches
pub mod Settling
use filo_j.Prelude.{
  ℕ, String, Bool, true, false, Option, none, some, List, [], ◌∷◌, ◌++◌, map, lookup, insert,
  length, Result, ok, err, Exec, pure, raise, lift, gets, modify, catch, ensure, leb, if◌then◌else◌,
  nat_eq, ◌||◌, raise_if, ◌>>=◌, ◌>>◌,
}
use filo_j.Shared.Errors.{Exn, ExnClass, exn, value_error, type_error, key_error, other_error}
use filo_j.Shared.Models.{AuditLog}
use filo_j.Shared.Values.{Json, text, Dict}
use filo_j.Shared.World.{World, Faults, call}
use filo_j.Shared.Message.{field, is_malformed}
use filo_j.Shared.Broker.{connect, get_configured_queue, close}
use filo_j.Shared.Webhook.{is_exception}

-- Python and SQLAlchemy: `AuditLog(**entry)`, once the job's id is a UUID
pub record Libraries : Type 0 where
  pub parse_uuid : String → Option ℕ
  pub audit_log : ℕ → Dict → Result Exn AuditLog

-- `json.loads(message.body.decode())`, as the list that the loop runs over: an entry that is no dict
-- is `none`. What is no list raises when it is decoded or iterated.
pub data LogBody : Type 0 where
  entries : List (Option Dict) → LogBody
  unreadable : Exn → LogBody

pub record LogMessage : Type 0 where
  pub tag : ℕ
  pub body : LogBody

-- A row of the batch, and whether a commit has stored it. The second list has the tags.
pub record LogRun : Type 0 where
  pub world : World
  pub batch_data : List (AuditLog × Bool)
  pub batch_messages : List ℕ
  pub acked : List ℕ
  pub requeued : List ℕ
  pub discarded : List ℕ

abbrev pub on_world : {A : Type 0} → Exec World Exn A → Exec LogRun Exn A
on_world m s = let (a, w) = m s.world in (a, record s { world = w })

-- The rows that a commit adds: one that is stored is not added again.
abbrev pub fresh : List (AuditLog × Bool) → List AuditLog
fresh [] = []
fresh ((row, true) ∷ rows) = fresh rows
fresh ((row, false) ∷ rows) = row ∷ fresh rows

abbrev pub set_stored : List (AuditLog × Bool) → List (AuditLog × Bool)
set_stored rows = map (λ row. (row.0, true)) rows

abbrev pub has_tag : ℕ → List ℕ → Bool
has_tag tag [] = false
has_tag tag (t ∷ ts) = nat_eq t tag || has_tag tag ts

-- Is the message acknowledged or rejected?
abbrev pub is_settled : ℕ → LogRun → Bool
is_settled tag s = has_tag tag s.acked || (has_tag tag s.requeued || has_tag tag s.discarded)

-- aio_pika's `MessageProcessError`
abbrev pub already_processed : Exn
already_processed = exn other_error "Message already processed"

-- What `ack` and `nack` do first
abbrev pub raise_if_settled : ℕ → Exec LogRun Exn (Unit {0})
raise_if_settled tag s = raise_if (is_settled tag s) already_processed s

module _ (lib : Libraries) (fault : Faults) where
  -- `db.add_all(batch_data)` and the commit
  unfoldable pub commit : Exec LogRun Exn (Unit {0})
  commit = do
    data_rows ← gets (λ s. s.batch_data)
    on_world (call fault (λ w. record w { audit_logs = w.audit_logs ++ fresh data_rows }))
    modify (λ s. record s { batch_data = set_stored s.batch_data })

  -- `raise_if_settled` is the check of aio_pika that a message is settled once.
  unfoldable pub ack_all : List ℕ → Exec LogRun Exn (Unit {0})
  ack_all [] = pure tt
  ack_all (tag ∷ tags) = do
    raise_if_settled tag
    on_world (call fault (λ w. w))
    modify (λ s. record s { acked = s.acked ++ tag ∷ [] })
    ack_all tags

  unfoldable pub requeue_all : List ℕ → Exec LogRun Exn (Unit {0})
  requeue_all [] = pure tt
  requeue_all (tag ∷ tags) = do
    raise_if_settled tag
    on_world (call fault (λ w. w))
    modify (λ s. record s { requeued = s.requeued ++ tag ∷ [] })
    requeue_all tags

  abbrev pub store_batch : Exec LogRun Exn (Unit {0})
  store_batch = do commit; tags ← gets (λ s. s.batch_messages); ack_all tags

  abbrev pub on_batch_error : Exn → Exec LogRun Exn (Unit {0})
  on_batch_error e =
      if is_exception e.class then (gets (λ s. s.batch_messages) >>= requeue_all) else raise e

  unfoldable pub process_batch : Exec LogRun Exn (Unit {0})
  process_batch = catch store_batch on_batch_error

  abbrev pub clear : Exec LogRun Exn (Unit {0})
  clear = modify (λ s. record s { batch_data = []; batch_messages = [] })

  -- `uuid.UUID(log_entry["job_id"])`
  abbrev pub uuid_of : Json → Result Exn ℕ
  uuid_of (text s) = elim (lib.parse_uuid s) [
    | some id ↦ ok id
    | none ↦ err (exn value_error "badly formed hexadecimal UUID string")
  ]
  uuid_of _ = err (exn ExnClass.attribute_error "no attribute 'replace'")

  abbrev pub entry_row : Option Dict → Result Exn AuditLog
  entry_row none = err (exn type_error "indices must be integers")
  entry_row (some entry) = elim (field "job_id" entry) [
    | err e ↦ err e
    | ok job_id ↦ elim (uuid_of job_id) [ err e ↦ err e | ok id ↦ lib.audit_log id entry ]
  ]

  -- The inner loop
  unfoldable pub read_entries : ℕ → List (Option Dict) → Exec LogRun Exn (Unit {0})
  read_entries tag [] = pure tt
  read_entries tag (entry ∷ rest) = do
    row ← lift (entry_row entry)
    modify (λ s. record s {
      batch_data = s.batch_data ++ (row, false) ∷ [];
      batch_messages = s.batch_messages ++ tag ∷ [];
    })
    read_entries tag rest

  abbrev pub read_body : ℕ → LogBody → Exec LogRun Exn (Unit {0})
  read_body tag (entries es) = read_entries tag es
  read_body tag (unreadable e) = raise e

  -- Five rows make a batch.
  abbrev pub flush_full : Exec LogRun Exn (Unit {0})
  flush_full s = (if leb 5 (length s.batch_data) then (process_batch >> clear) else pure tt) s

  -- `except (UnicodeDecodeError, json.JSONDecodeError, KeyError)`
  abbrev pub on_malformed : ℕ → Exn → Exec LogRun Exn (Unit {0})
  on_malformed tag e =
      if is_malformed e.class
      then (raise_if_settled tag
          >> on_world (call fault (λ w. w))
          >> modify (λ s. record s { discarded = s.discarded ++ tag ∷ [] }))
      else raise e

  unfoldable pub handle_message : LogMessage → Exec LogRun Exn (Unit {0})
  handle_message m = catch (read_body m.tag m.body >> flush_full) (on_malformed m.tag)

  unfoldable pub consume : List LogMessage → Exec LogRun Exn (Unit {0})
  consume [] = pure tt
  consume (m ∷ ms) = handle_message m >> consume ms

  -- `except Exception`
  abbrev pub swallow : Exn → Exec LogRun Exn (Unit {0})
  swallow e = if is_exception e.class then pure tt else raise e

  abbrev pub flush_rest : List (AuditLog × Bool) → Exec LogRun Exn (Unit {0})
  flush_rest [] = pure tt
  flush_rest (row ∷ rows) = process_batch >> clear

  -- The first half of the `finally` block
  unfoldable pub flush : Exec LogRun Exn (Unit {0})
  flush s = flush_rest s.batch_data s

  abbrev pub close_client : Option Bool → Exec LogRun Exn (Unit {0})
  close_client none = pure tt
  close_client (some closed) = on_world (close fault)

  unfoldable pub audit_logger : List LogMessage → Exec LogRun Exn (Unit {0})
  audit_logger ms =
      ensure
        (catch
          (on_world (connect fault 5)
            >> (on_world (get_configured_queue fault "system.events" "event.#" "logger_queue")
                >> consume ms))
          swallow)
        (flush >> (gets (λ s. s.world.broker.connection) >>= close_client))
