-- ===== src/Tests/Logger.antt =====
-- Scenarios of logger_service/worker.py: a message with two events, and one whose job id is no UUID.
use filo_j.Prelude.{ℕ, String, ◌≡◌, refl, Bool, none, some, [], ◌∷◌, ok, err, if◌then◌else◌, ◌==◌}
use filo_j.Shared.Models.{AuditLog}
use filo_j.Shared.Values.{text}
use filo_j.Shared.World.{quiet}
use filo_j.Shared.Broker.{
  connect, get_configured_queue, close, setup_exchanges, declare_exchange, add_key,
}
use filo_j.LoggerService.{
  Libraries, LogMessage, LogRun, entries, audit_logger, process_batch, already_processed, commit,
  ack_all, requeue_all, consume, handle_message, read_entries, flush,
}
use filo_j.LoggerService.Settling.{Settles, process_batch-Settles}
use filo_j.LoggerService.Batches.{AcksStored, process_batch-AcksStored}
use filo_j.Tests.Broker.{new_world}

abbrev row : ℕ → AuditLog
row id = record { job_id = id; service = "api"; routing_key = "event.api"; action = "stored" }

abbrev lib : Libraries
lib = record {
  parse_uuid = λ s. if s == "bad" then none else some 7;
  audit_log = λ id entry. ok (row id);
}

-- What `audit_logger` starts with
abbrev start : LogRun
start = record {
  world = new_world;
  batch_data = [];
  batch_messages = [];
  acked = [];
  requeued = [];
  discarded = [];
}

abbrev full_run : LogRun
full_run = record start { batch_data = (row 7, Bool.false) ∷ []; batch_messages = 1 ∷ [] }

process_batch-AcksStored_example : AcksStored full_run (process_batch lib quiet full_run).1
process_batch-AcksStored_example = process_batch-AcksStored lib quiet full_run

-- One message with two events
abbrev twice_run : LogRun
twice_run = record start {
  batch_data = (row 7, Bool.false) ∷ (row 7, Bool.false) ∷ [];
  batch_messages = 1 ∷ 1 ∷ [];
}

process_batch-Settles_example : Settles lib twice_run (process_batch lib quiet twice_run)
process_batch-Settles_example = process_batch-Settles lib twice_run

twice_run-raises : (process_batch lib quiet twice_run).0 ≡ err already_processed
unfolding process_batch commit ack_all requeue_all
twice_run-raises = refl

abbrev event : ℕ → String → LogMessage
event tag job_id = record { tag = tag; body = entries (some (("job_id", text job_id) ∷ []) ∷ []) }

-- The third event ends the loop, and the fourth is not stored.
two_rows :
    (audit_logger lib quiet
      (event 1 "7" ∷ event 2 "7" ∷ event 3 "bad" ∷ event 4 "7" ∷ [])
      start).1.world.audit_logs
    ≡ row 7 ∷ row 7 ∷ []
unfolding audit_logger connect get_configured_queue consume handle_message read_entries flush
    process_batch commit ack_all requeue_all close setup_exchanges declare_exchange add_key
two_rows = refl
