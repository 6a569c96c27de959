-- ===== src/SecurityScanner/Loop.antt =====
-- security_scanner/worker.py: `scan_worker`, the whole process, given the messages that come until the
-- queue is closed.
pub mod Laws
use filo_j.Prelude.{
  Bool, true, false, none, List, Result, ok, err, Exec, pure, raise, gets, modify, catch, ensure,
  if◌then◌else◌, ℕ, ◌>>=◌, ◌>>◌,
}
use filo_j.Shared.Errors.{Exn}
use filo_j.Shared.Values.{null}
use filo_j.Shared.World.{World, Faults}
use filo_j.Shared.Broker
use filo_j.Shared.Broker.{new_client, get_configured_queue, close}
use filo_j.Shared.Message.{Message}
use filo_j.Shared.Webhook.{is_exception}
use filo_j.Shared.Consumer.{AioPika, consume}
use filo_j.SecurityScanner.Frame.{ScanReply, Frame}
use filo_j.SecurityScanner.Worker.{Libraries, scan_file}
use filo_j.SecurityScanner.ClamAv.{Client, Tenacity, connect, scan, disconnect}

-- The local `cd`, whose client it holds, is assigned or not.
pub record Running : Type 0 where
  pub client : Client
  pub assigned : Bool

abbrev pub on_client : {A : Type 0} → Exec Client Exn A → Exec Running Exn A
on_client m s = let (a, c) = m s.client in (a, record s { client = c })

abbrev pub on_world : {A : Type 0} → Exec World Exn A → Exec Running Exn A
on_world m s =
    let (a, w) = m s.client.world in (a, record s { client = record s.client { world = w } })

-- The locals of a message are not assigned yet.
abbrev pub new_frame : World → Frame
new_frame w = record { world = w; job = none; scan_res = none; developer_id = null; nacked = false }

module _ (lib : Libraries) (t : Tenacity) (aio : AioPika) (fault : Faults)
    (instream : ℕ → Result Exn ScanReply) where
  abbrev pub scan_with : Bool → Exec World Exn ScanReply
  scan_with connection w =
      let (r, c) = scan t fault instream (record { connection = connection; world = w }) in
      (r, c.world)

  -- `scan_file` within `message.process`
  unfoldable pub take_message : Message → Exec Running Exn (Unit {0})
  take_message message s =
      let (r, f) =
        scan_file lib fault (scan_with s.client.connection) message (new_frame s.client.world) in
      on_world (aio.leave f.nacked r) (record s { client = record s.client { world = f.world } })

  -- The `try` block: `BrokerClient()`, `ClamAVClient()`, the queue and the loop
  unfoldable pub serve : List Message → Exec Running Exn (Unit {0})
  serve messages = do
    on_world (modify (λ w. record w { broker = new_client }))
    on_world (Broker.connect fault 1)
    modify (λ s. record s { client = record s.client { connection = false }; assigned = true })
    on_client (connect t fault instream)
    on_world (get_configured_queue fault "work.tasks" "task.*.scan" "scanner-queue")
    consume take_message messages

  -- `except SystemExit: raise` and `except Exception`
  abbrev pub swallow : Exn → Exec Running Exn (Unit {0})
  swallow e = if is_exception e.class then pure tt else raise e

  abbrev pub disconnect_if : Bool → Exec Running Exn (Unit {0})
  disconnect_if true = on_client (disconnect t fault instream)
  disconnect_if false = pure tt

  -- The `finally` block
  unfoldable pub close_clients : Exec Running Exn (Unit {0})
  close_clients = do
    assigned ← gets (λ s. s.assigned)
    disconnect_if assigned
    on_world (close fault)

  unfoldable pub scan_worker : List Message → Exec Running Exn (Unit {0})
  scan_worker messages = ensure (catch (serve messages) swallow) close_clients
