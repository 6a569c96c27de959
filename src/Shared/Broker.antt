-- ===== src/Shared/Broker.antt =====
-- shared/broker.py: `BrokerClient`. A method acts on the client's fields and on RabbitMQ.
pub mod Laws
pub mod Rows
use filo_j.Prelude.{
  ℕ, suc, String, Bool, true, false, Option, none, some, List, [], ◌∷◌, ◌++◌, elem, Exec, pure,
  raise, raise_if, modify, gets, ◌>>=◌, ◌>>◌, if◌then◌else◌, not,
}
use filo_j.Shared.Errors.{Exn, exn, runtime_error, key_error}
use filo_j.Shared.Values.{Dict}
use filo_j.Shared.World.{Published, Queue, BrokerClient, World, Faults, tick, call}

-- `BrokerClient()`
abbrev pub new_client : BrokerClient
new_client = record { connection = none; channel = false; prefetch_count = none; exchanges = [] }

-- `x-delivery-limit`: how often RabbitMQ gives a message of such a queue again
abbrev pub delivery_limit : ℕ
delivery_limit = 3

-- An assignment to fields of `self`.
abbrev pub on_client : (BrokerClient → BrokerClient) → World → World
on_client f w = record w { broker = f w.broker }

unfoldable pub add_key : String → List String → List String
add_key k ks = if elem k ks then ks else ks ++ k ∷ []

module _ (fault : Faults) where
  -- `self.exchanges[name] = await self.channel.declare_exchange(name, …)`
  unfoldable pub declare_exchange : String → Exec World Exn (Unit {0})
  declare_exchange name =
      call fault (on_client (λ c. record c { exchanges = add_key name c.exchanges }))

  unfoldable pub setup_exchanges : Exec World Exn (Unit {0})
  unfolding declare_exchange
  setup_exchanges = do
    declare_exchange "work.tasks"
    declare_exchange "system.events"
    declare_exchange "webhook.retry"
    declare_exchange "dlx.exchange"

  unfoldable pub connect : ℕ → Exec World Exn (Unit {0})
  unfolding setup_exchanges
  connect prefetch_count = do
    modify (on_client (λ c. record c { prefetch_count = some prefetch_count }))
    call fault (on_client (λ c. record c { connection = some false }))
    call fault (on_client (λ c. record c { channel = true }))
    call fault (λ w. w)
    setup_exchanges

  -- `_on_reconnect`
  unfoldable pub on_reconnect : Exec World Exn (Unit {0})
  unfolding setup_exchanges
  on_reconnect = do
    call fault (on_client (λ c. record c { channel = true }))
    call fault (λ w. w)
    modify (on_client (λ c. record c { exchanges = [] }))
    setup_exchanges

  unfoldable pub get_configured_queue : String → String → String → Exec World Exn Queue
  get_configured_queue exchange_name routing_key queue_name = do
    channel ← gets (λ w. w.broker.channel)
    raise_if (not channel)
        (exn runtime_error "BrokerClient is not connected. Call connect() first.")
    exchanges ← gets (λ w. w.broker.exchanges)
    raise_if (not (elem exchange_name exchanges)) (exn key_error "Exchange is not set up.")
    call fault (λ w. w)
    let queue : Queue = record {
      name = queue_name;
      bound_to = exchange_name;
      binding = routing_key;
      dead_letter_exchange = "dlx.exchange";
      dead_letter_routing_key = "failed.scan";
      delivery_limit = delivery_limit;
    }
    call fault (λ w. record w { queues = w.queues ++ queue ∷ [] })
    pure queue

  unfoldable pub publish :
      String → String → Dict → Option (List (String × ℕ)) → Exec World Exn (Unit {0})
  publish exchange_name routing_key payload headers = do
    channel ← gets (λ w. w.broker.channel)
    raise_if (not channel)
        (exn runtime_error "BrokerClient is not connected. Call connect() first.")
    exchanges ← gets (λ w. w.broker.exchanges)
    raise_if (not (elem exchange_name exchanges)) (exn key_error "Exchange is not set up.")
    let message : Published = record {
      exchange = exchange_name;
      routing_key = routing_key;
      payload = payload;
      headers = headers;
    }
    call fault (λ w. record w { published = w.published ++ message ∷ [] })

  abbrev close_if : Option Bool → Exec World Exn (Unit {0})
  close_if (some false) = call fault (on_client (λ c. record c { connection = some true }))
  close_if _ = pure tt

  unfoldable pub close : Exec World Exn (Unit {0})
  close w = close_if w.broker.connection w
