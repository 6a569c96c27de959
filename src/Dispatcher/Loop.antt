-- ===== src/Dispatcher/Loop.antt =====
-- dispatcher/worker.py: `start_worker`, the whole process, given the messages that come until the queue
-- is closed, and `RedisClient.close` of shared/redis/client.py. The clients of Redis, of the auth service
-- and of HTTP are made without a call; the close of a client is one.
use filo_j.Prelude.{
  String, [], ◌∷◌, ℕ, Bool, true, false, Option, none, some, List, Exec, pure, raise, gets, modify,
  catch, ensure, if◌then◌else◌, ◌>>=◌, ◌>>◌,
}
use filo_j.Shared.Errors.{Exn, ExnClass, exn, attribute_error}
use filo_j.Shared.Values.{Json, text}
use filo_j.Shared.Redis.{Redis}
use filo_j.Shared.World.{World, Faults, call}
use filo_j.Shared.Broker.{new_client, connect, publish, get_configured_queue, close}
use filo_j.Shared.Message.{Body}
use filo_j.Shared.Webhook.{is_exception}
use filo_j.Shared.Consumer.{AioPika, consume}
use filo_j.Dispatcher.WebhookRepo.{Dispatch}
use filo_j.Dispatcher.Resolver.{WebhookRpc}
use filo_j.Dispatcher.Delivery.{HttpLibraries}
use filo_j.Dispatcher.Processor.{Environment, process_webhook}

-- What the process acts on, and whether its locals `redis` and `auth_grpc_client` are assigned
pub record Running (r : Redis) : Type 0 where
  pub dispatch : Dispatch r
  pub redis : Bool
  pub auth_grpc_client : Bool

-- `KeyboardInterrupt` is caught too, and then every `Exception`.
abbrev pub is_interrupt : ExnClass → Bool
is_interrupt ExnClass.keyboard_interrupt = true
is_interrupt _ = false

-- `_publish_audit`, which nothing calls, and which names another service
unfoldable pub publish_audit : Faults → Json → String → String → Exec World Exn (Unit {0})
publish_audit fault job_id routing_key action =
    publish fault "system.events" routing_key
      (("job_id", job_id)
        ∷ ("service", text "image_processor")
        ∷ ("routing_key", text routing_key)
        ∷ ("action", text action)
        ∷ [])
      none

module _ (lib : HttpLibraries) (env : Environment) (r : Redis) (aio : AioPika) (fault : Faults)
    (rpc : WebhookRpc) (fuel : ℕ) where
  abbrev pub on_dispatch : {A : Type 0} → Exec (Dispatch r) Exn A → Exec (Running r) Exn A
  on_dispatch m s = let (a, d) = m s.dispatch in (a, record s { dispatch = d })

  abbrev pub on_world : {A : Type 0} → Exec World Exn A → Exec (Running r) Exn A
  on_world m s =
      let (a, w) = m s.dispatch.world in
      (a, record s { dispatch = record s.dispatch { world = w } })

  -- `process_webhook` with its `message.process`; it rejects no message by itself.
  unfoldable pub take_message : Body → Exec (Running r) Exn (Unit {0})
  take_message body s =
      let (a, d) = process_webhook lib env r fault rpc fuel body s.dispatch in
      on_world (aio.leave false a) (record s { dispatch = d })

  unfoldable pub serve : List Body → Exec (Running r) Exn (Unit {0})
  serve messages = do
    on_world (modify (λ w. record w { broker = new_client }))
    on_world (connect fault 1)
    modify (λ s. record s { redis = true; auth_grpc_client = true })
    on_world (get_configured_queue fault "webhook.retry" "event.job.*" "webhook_dipatcher")
    ensure (consume take_message messages) (on_world (call fault (λ w. w)))

  abbrev pub swallow : Exn → Exec (Running r) Exn (Unit {0})
  swallow e =
      if is_interrupt e.class then pure tt else if is_exception e.class then pure tt else raise e

  abbrev pub close_broker : Option Bool → Exec (Running r) Exn (Unit {0})
  close_broker none = pure tt
  close_broker (some closed) = on_world (close fault)

  -- `redis.client` of `None` raises; the client and its pool are closed one after the other.
  abbrev pub close_redis : Bool → Exec (Running r) Exn (Unit {0})
  close_redis true = on_world (call fault (λ w. w)) >> on_world (call fault (λ w. w))
  close_redis false = raise (exn attribute_error "'NoneType' object has no attribute 'client'")

  abbrev pub close_auth : Bool → Exec (Running r) Exn (Unit {0})
  close_auth true = on_world (call fault (λ w. w))
  close_auth false = pure tt

  -- The `finally` block
  unfoldable pub close_clients : Exec (Running r) Exn (Unit {0})
  close_clients = do
    connection ← gets (λ s. s.dispatch.world.broker.connection)
    close_broker connection
    redis ← gets (λ s. s.redis)
    close_redis redis
    auth_grpc_client ← gets (λ s. s.auth_grpc_client)
    close_auth auth_grpc_client

  unfoldable pub start_worker : List Body → Exec (Running r) Exn (Unit {0})
  start_worker messages = ensure (catch (serve messages) swallow) close_clients
