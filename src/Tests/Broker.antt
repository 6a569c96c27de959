-- ===== src/Tests/Broker.antt =====
-- Scenarios of shared/broker.py and shared/webhook.py: a client that is connected sends
-- the event of a scan.
use filo_j.Prelude.{true, false, none, some, []}
use filo_j.Shared.Errors.{Exn, exn, runtime_error}
use filo_j.Shared.Values.{text, opaque}
use filo_j.Shared.World.{World, Faults}
use filo_j.Shared.Broker.{new_client}
use filo_j.Shared.Broker.Laws.{declared}
use filo_j.Shared.Webhook.{dispatch_to_webhook}
use filo_j.Shared.Webhook.Laws.{Dispatches, webhook_message, dispatch_to_webhook-Dispatches}

abbrev no_fault : Faults
no_fault n = none

abbrev pub new_world : World
new_world = record {
  calls = 0;
  broker = new_client;
  queues = [];
  published = [];
  jobs = [];
  files = [];
  audit_logs = [];
  buckets = [];
  objects = [];
}

abbrev pub ready_world : World
ready_world = record new_world {
  broker = record {
    connection = some false;
    channel = true;
    prefetch_count = some 1;
    exchanges = declared;
  };
}

abbrev not_connected : Exn
not_connected = exn runtime_error "BrokerClient is not connected. Call connect() first."

dispatch_to_webhook-Dispatches_example :
    Dispatches
      (λ s. s)
      "scan.completed"
      "clean"
      ready_world
      (webhook_message "scan.completed" "17" "clean" (opaque true 0) (text "42"))
      (dispatch_to_webhook
        (λ s. s)
        no_fault
        "scan.completed"
        "17"
        "clean"
        (opaque true 0)
        (text "42")
        ready_world)
dispatch_to_webhook-Dispatches_example =
    dispatch_to_webhook-Dispatches (λ s. s) no_fault "scan.completed" "17" "clean" (opaque true 0)
      (text "42") ready_world
