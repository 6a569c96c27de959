-- ===== src/Tests/Workers.antt =====
-- Scenarios of the processes as a whole: the scanner with an infected file, the dispatcher without RabbitMQ
-- and with a message of no developer, the start of the API, and an address with a percent sign.
use filo_j.Prelude.{
  ℕ, ◌≡◌, ◌≢◌, refl, true, false, Option, none, some, List, [], ◌∷◌, Result, ok, err, arith,
}
use filo_j.Shared.Errors.{Exn, exn, other_error, attribute_error}
use filo_j.Shared.World.{Faults}
use filo_j.Shared.World.Laws.{Extends}
use filo_j.Shared.Redis.Memory.{memory}
use filo_j.Shared.Consumer.{AioPika, AioPikaLaws}
use filo_j.SecurityScanner.Frame.{ScanReply}
use filo_j.SecurityScanner.Worker.{is_clean}
use filo_j.SecurityScanner.Loop
use filo_j.SecurityScanner.Loop.{serve, take_message, scan_worker}
use filo_j.SecurityScanner.Loop.Laws.{scan_worker-NoTask}
use filo_j.Dispatcher.Loop.{start_worker}
use filo_j.Dispatcher.LoopLaws.{start_worker_unreachable}
use filo_j.Api.Lifespan.{startup}
use filo_j.Api.Startup.{Serves, startup-Serves}
use filo_j.Migrations.Env.{Variables, engine_url, configure}
use filo_j.Migrations.Env.Laws.{engine_url-db_url}
use filo_j.Tests.Broker.{new_world}
use filo_j.Tests.ClamAv.{tenacity, tenacity_laws}
use filo_j.Tests.Dispatcher.{rpc, fresh}
use filo_j.Tests.Dispatcher.{lib as http, env as environment}
use filo_j.Tests.Scanner.{lib, infected_reply, scan_message, scan_world}

abbrev no_fault : Faults
no_fault n = none

-- A message is settled without a failure.
abbrev aio : AioPika
aio = record { leave = λ rejected r w. (r, w) }

aio_laws : AioPikaLaws aio
aio_laws = record { leave-SameRows = λ rejected r w. (refl, refl, refl) }

abbrev infected : ℕ → Result Exn ScanReply
infected n = ok infected_reply

abbrev scanner : Loop.Running
scanner = record { client = record { connection = false; world = scan_world }; assigned = false }

infected_unclean : (n : ℕ) (reply : ScanReply) → infected n ≡ ok reply → is_clean reply ≡ false
infected_unclean n reply h = ground (arith, h)

scan_worker-NoTask_example :
    Extends
      (λ m. m.exchange ≢ "work.tasks")
      scan_world.published
      (scan_worker lib tenacity aio no_fault infected
        (scan_message ∷ [])
        scanner).1.client.world.published
scan_worker-NoTask_example =
    scan_worker-NoTask lib tenacity tenacity_laws aio aio_laws no_fault infected infected_unclean
      (scan_message ∷ []) scanner

-- RabbitMQ is not there.
abbrev refused : Faults
refused n = some (exn other_error "connection refused")

start_worker_unreachable_example :
    (start_worker http
      (environment 200)
      memory
      aio
      refused
      rpc
      2
      []
      (record { dispatch = fresh; redis = false; auth_grpc_client = false })).0
    ≡ err (exn attribute_error "'NoneType' object has no attribute 'client'")
start_worker_unreachable_example =
    start_worker_unreachable http (environment 200) memory aio refused rpc 2 []
      (record { dispatch = fresh; redis = false; auth_grpc_client = false })
      (exn other_error "connection refused") refl refl refl

startup-Serves_example : Serves (startup no_fault new_world)
startup-Serves_example = startup-Serves no_fault new_world

-- `p%40`, as in a password with an at sign
abbrev variables : Variables
variables = record {
  database_url = some (112 ∷ 37 ∷ 52 ∷ 48 ∷ []);
  database_schema = none;
  local_url = [];
}

abbrev no_reference : List ℕ → Option (List ℕ)
no_reference value = none

engine_url-db_url_example :
    (engine_url no_reference variables ≡ some (112 ∷ 37 ∷ 52 ∷ 48 ∷ []))
    × ((configure no_reference variables true).url ≡ some (112 ∷ 37 ∷ 52 ∷ 48 ∷ []))
engine_url-db_url_example = engine_url-db_url no_reference variables
