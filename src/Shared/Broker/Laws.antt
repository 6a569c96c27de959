-- ===== src/Shared/Broker/Laws.antt =====
-- What `BrokerClient` guarantees: which exchanges a connected client knows, and what a publish does
-- whether it returns or raises.
use filo_j.Prelude.{
  ℕ, suc, String, ◌≡◌, refl, true, false, Option, some, List, [], ◌∷◌, ◌++◌, arith, elem,
  elem-append_self, elem-append, Result, ok, err, ◌⊎◌,
}
use filo_j.Shared.Errors.{Exn, key_error, runtime_error}
use filo_j.Shared.Values.{Dict}
use filo_j.Shared.World.{Published, World, Faults}
use filo_j.Shared.World.Laws.{Sends}
use filo_j.Shared.Broker.{add_key, setup_exchanges, connect, on_reconnect, publish}

elem-add_key_self : (k : String) (ks : List String) → elem k (add_key k ks) ≡ true
unfolding add_key
elem-add_key_self k ks = ground (arith, elem-append_self k ks)

elem-add_key : (j k : String) (ks : List String) → elem j ks ≡ true → elem j (add_key k ks) ≡ true
unfolding add_key
elem-add_key j k ks h = ground (arith, elem-append j k ks)

-- The exchanges that `setup_exchanges` declares.
abbrev pub declared : List String
declared = "work.tasks" ∷ "system.events" ∷ "webhook.retry" ∷ "dlx.exchange" ∷ []

-- A client that can publish to each of these exchanges.
pub record IsReady (w : World) : Type 0 where
  pub has_channel : w.broker.channel ≡ true
  pub has_tasks : elem "work.tasks" w.broker.exchanges ≡ true
  pub has_events : elem "system.events" w.broker.exchanges ≡ true
  pub has_retry : elem "webhook.retry" w.broker.exchanges ≡ true
  pub has_dlx : elem "dlx.exchange" w.broker.exchanges ≡ true

-- How a call of `publish` ends, and what RabbitMQ has then.
abbrev pub Publishes : World → Published → Result Exn (Unit {0}) × World → Type 0
Publishes w m (ok _, w') = (w'.published ≡ w.published ++ m ∷ []) × (w'.broker ≡ w.broker)
Publishes w m (err _, w') = (w'.published ≡ w.published) × (w'.broker ≡ w.broker)

-- The names in the client's table after the four declarations.
keys_after : List String → List String
keys_after ks =
    add_key "dlx.exchange"
      (add_key "webhook.retry" (add_key "system.events" (add_key "work.tasks" ks)))

keys_after-elem :
    (ks : List String)
    → (elem "work.tasks" (keys_after ks) ≡ true)
      × (elem "system.events" (keys_after ks) ≡ true)
      × (elem "webhook.retry" (keys_after ks) ≡ true)
      × (elem "dlx.exchange" (keys_after ks) ≡ true)
unfolding keys_after
keys_after-elem ks =
    let tasks = elem-add_key_self "work.tasks" ks in
    let events = elem-add_key_self "system.events" (add_key "work.tasks" ks) in
    let retry =
      elem-add_key_self "webhook.retry" (add_key "system.events" (add_key "work.tasks" ks)) in
    (
      elem-add_key _ _ _ (elem-add_key _ _ _ (elem-add_key _ _ _ tasks)),
      elem-add_key _ _ _ (elem-add_key _ _ _ events),
      elem-add_key _ _ _ retry,
      elem-add_key_self _ _,
    )

keys_after_nil : keys_after [] ≡ declared
unfolding keys_after add_key
keys_after_nil = refl

module _ (fault : Faults) where
  setup_exchanges-keys :
      (w : World)
      → (setup_exchanges fault w).0 ≡ ok tt
      → ((setup_exchanges fault w).1.broker.exchanges ≡ keys_after w.broker.exchanges)
        × ((setup_exchanges fault w).1.broker.channel ≡ w.broker.channel)
  unfolding setup_exchanges keys_after
  setup_exchanges-keys w h = ground arith

  -- The client after the three awaited calls of `connect` that precede the declarations.
  abbrev connected : ℕ → World → World
  connected n w = record w {
    calls = suc (suc (suc w.calls));
    broker = record {
      connection = some false;
      channel = true;
      prefetch_count = some n;
      exchanges = w.broker.exchanges;
    };
  }

  -- If `connect` returns, the client can publish to each of the four exchanges, whatever its table
  -- held before.
  pub connect-IsReady :
      (n : ℕ) (w : World) → (connect fault n w).0 ≡ ok tt → IsReady (connect fault n w).1
  unfolding connect
  connect-IsReady n w h =
      ground (arith, setup_exchanges-keys (connected n w), keys_after-elem w.broker.exchanges)

  -- The client after the awaited calls of `on_reconnect` that precede the declarations.
  abbrev reconnected : World → World
  reconnected w = record w {
    calls = suc (suc w.calls);
    broker = record w.broker { channel = true; exchanges = [] };
  }

  -- If `_on_reconnect` returns, the client has a channel again, can publish to each of the four
  -- exchanges, and its table holds these four and nothing that it held before.
  pub on_reconnect-IsReady :
      (w : World)
      → (on_reconnect fault w).0 ≡ ok tt
      → IsReady (on_reconnect fault w).1 × ((on_reconnect fault w).1.broker.exchanges ≡ declared)
  unfolding on_reconnect
  on_reconnect-IsReady w h =
      ground (arith, setup_exchanges-keys (reconnected w), keys_after-elem [], keys_after_nil)

  -- A publish adds its message and nothing else, or it raises and RabbitMQ has what it had; the
  -- client's fields stay as they are.
  pub publish-Publishes :
      (x k : String) (p : Dict) (h : Option (List (String × ℕ))) (w : World)
      → Publishes w
          (record { exchange = x; routing_key = k; payload = p; headers = h })
          (publish fault x k p h w)
  unfolding publish
  publish-Publishes x k p h w = ground arith

  pub publish-Sends :
      (x k : String) (p : Dict) (h : Option (List (String × ℕ))) (w : World)
      → Sends
          (record { exchange = x; routing_key = k; payload = p; headers = h })
          w
          (publish fault x k p h w)
  unfolding publish
  publish-Sends x k p h w = ground arith

  -- Without a channel, or to an exchange that the client has not declared, a publish raises
  -- `RuntimeError` or `KeyError` before it makes any external call; to a declared one it raises only
  -- what the external call raises.
  pub publish_guards :
      (x k : String) (p : Dict) (h : Option (List (String × ℕ))) (w : World) (e : Exn)
      → (publish fault x k p h w).0 ≡ err e
      → ((w.broker.channel ≡ false) × (e.class ≡ runtime_error) × ((publish fault x k p h w).1 ≡ w))
        ⊎ (((w.broker.channel ≡ true)
              × (elem x w.broker.exchanges ≡ false)
              × (e.class ≡ key_error)
              × ((publish fault x k p h w).1 ≡ w))
            ⊎ ((w.broker.channel ≡ true)
                × (elem x w.broker.exchanges ≡ true)
                × (fault w.calls ≡ some e)))
  unfolding publish
  publish_guards x k p h w e raised = ground arith
