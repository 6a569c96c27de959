-- ===== src/Dispatcher/Stops.antt =====
-- dispatcher/worker.py: `start_worker` after a message that no developer is named in, or that cannot be
-- decoded.
use filo_j.Prelude.{◌≡◌, Bool, true, false, err, ◌⊎◌}
use filo_j.Shared.Errors.{Exn, is_dispatch_error}
use filo_j.Shared.Values.{Dict, get, null, truthy}
use filo_j.Shared.Redis.{Redis}
use filo_j.Shared.World.{World}
use filo_j.Shared.Message.{Body}
use filo_j.Shared.Consumer.{AioPika}
use filo_j.Dispatcher.Processor.{decoded, undecodable, is_value_error}

-- A message without a developer, or one that is no text of JSON
abbrev pub IsMalformed : Body → Type 0
IsMalformed body =
    ((payload : Dict) × (body ≡ decoded payload)
      × (truthy (get "developer_id" null payload) ≡ false))
    ⊎ ((e : Exn) × (body ≡ undecodable e)
        × (is_value_error e.class ≡ true)
        × (is_dispatch_error e.class ≡ false))

-- `message.process` lets an exception out, or raises another one.
abbrev pub LetsOut : AioPika → Type 0
LetsOut aio =
    (rejected : Bool) (e : Exn) (w : World) → (x : Exn) × ((aio.leave rejected (err e) w).0 ≡ err x)
