-- ===== src/Dispatcher/LoopLaws.antt =====
-- dispatcher/worker.py: `start_worker` when RabbitMQ cannot be reached.
use filo_j.Prelude.{
  ℕ, ◌≡◌, refl, ap, ◌∙◌, true, false, Option, none, some, List, Result, ok, err, Exec, modify,
  catch, ensure, arith, ◌>>◌,
}
use filo_j.Shared.Errors.{Exn, exn, attribute_error}
use filo_j.Shared.Redis.{Redis}
use filo_j.Shared.World.{World, Faults, call, tick}
use filo_j.Shared.Broker.{new_client, on_client, setup_exchanges, connect, get_configured_queue}
use filo_j.Prelude.Rules.{bind-err}
use filo_j.Shared.Message.{Body}
use filo_j.Shared.Webhook.{is_exception}
use filo_j.Shared.Consumer.{AioPika, consume}
use filo_j.Dispatcher.Resolver.{WebhookRpc}
use filo_j.Dispatcher.Delivery.{HttpLibraries}
use filo_j.Dispatcher.Processor.{Environment}
use filo_j.Dispatcher.Loop.{
  Running, on_world, take_message, serve, swallow, close_clients, start_worker,
}

-- The client that could not connect
abbrev unconnected : World → World
unconnected w = tick (record w { broker = record new_client { prefetch_count = some 1 } })

connect_refused :
    (fault : Faults) (w : World) (e : Exn)
    → fault w.calls ≡ some e
    → connect fault 1 (record w { broker = new_client }) ≡ (err e, unconnected w)
unfolding connect
connect_refused fault w e h =
    let w1 = record w { broker = record new_client { prefetch_count = some 1 } } in
    let rest : Exec World Exn (Unit {0}) =
      call fault (on_client (λ c. record c { channel = true }))
      >> (call fault (λ w. w) >> setup_exchanges fault) in
    bind-err (call fault (on_client (λ c. record c { connection = some false })) w1) (λ _. rest) w1
      (tick w1) e
      (ap
        (λ (x : Option Exn). elim x as (λ _. Result Exn (Unit {0}) × World) [
          | none ↦ (ok tt, on_client (λ c. record c { connection = some false }) (tick w1))
          | some e ↦ (err e, tick w1)
        ])
        h)

module _ (lib : HttpLibraries) (env : Environment) (r : Redis) (aio : AioPika) (fault : Faults)
    (rpc : WebhookRpc) (fuel : ℕ) where
  serve_refused :
      (messages : List Body) (s : Running r) (e : Exn)
      → fault s.dispatch.world.calls ≡ some e
      → serve lib env r aio fault rpc fuel messages s ≡ (
        err e,
        record s { dispatch = record s.dispatch { world = unconnected s.dispatch.world } },
      )
  unfolding serve
  serve_refused messages s e h =
      let d = s.dispatch in
      let queue =
        on_world lib env r aio fault rpc fuel
          (get_configured_queue fault "webhook.retry" "event.job.*" "webhook_dipatcher") in
      let loop =
        ensure (consume (take_message lib env r aio fault rpc fuel) messages)
          (on_world lib env r aio fault rpc fuel (call fault (λ w. w))) in
      let rest : Exec (Running r) Exn (Unit {0}) =
        modify (λ s. record s { redis = true; auth_grpc_client = true }) >> (queue >> loop) in
      let s1 = record s {
        dispatch = record d { world = record d.world { broker = new_client } };
      } in
      bind-err (on_world lib env r aio fault rpc fuel (connect fault 1) s1) (λ _. rest) s1
        (record s { dispatch = record d { world = unconnected d.world } }) e
        (ap
          (λ (p : Result Exn (Unit {0}) × World).
            (p.0, record s1 { dispatch = record d { world = p.1 } }))
          (connect_refused fault d.world e h))

  -- If RabbitMQ cannot be reached, for any `Exception`, the process does not end in the log line that
  -- is meant for it: the `finally` block reads the client of Redis, which is not there yet, and the
  -- `AttributeError` leaves `start_worker`.
  pub start_worker_unreachable :
      (messages : List Body) (s : Running r) (e : Exn)
      → s.redis ≡ false
      → fault s.dispatch.world.calls ≡ some e
      → is_exception e.class ≡ true
      → (start_worker lib env r aio fault rpc fuel messages s).0
        ≡ err (exn attribute_error "'NoneType' object has no attribute 'client'")
  unfolding start_worker close_clients
  start_worker_unreachable messages s e unassigned failed is_exn =
      let s1 = record s { dispatch = record s.dispatch { world = unconnected s.dispatch.world } } in
      ap
        (λ p.
          (ensure (catch (λ (_ : Running r). p) (swallow lib env r aio fault rpc fuel))
            (close_clients lib env r aio fault rpc fuel) s).0)
        (serve_refused messages s e failed)
      ∙ closed (swallow lib env r aio fault rpc fuel e s1) (swallowed s1)
    where
      closed :
          (p : Result Exn (Unit {0}) × Running r)
          → p ≡ (
            ok tt,
            record s { dispatch = record s.dispatch { world = unconnected s.dispatch.world } },
          )
          → (ensure (λ (_ : Running r). p) (close_clients lib env r aio fault rpc fuel) s).0
            ≡ err (exn attribute_error "'NoneType' object has no attribute 'client'")
      closed p h =
          ap (λ p. (ensure (λ (_ : Running r). p) (close_clients lib env r aio fault rpc fuel) s).0)
            h
          ∙ rw unassigned refl

      swallowed : (s1 : Running r) → swallow lib env r aio fault rpc fuel e s1 ≡ (ok tt, s1)
      swallowed s1 = ground (arith, is_exn)
