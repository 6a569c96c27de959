-- ===== src/Dispatcher/Attempts.antt =====
-- How often a webhook is attempted, and how an attempt ends when nothing else fails.
use native.Mathlib.Numerals.{add-one}
use Prim.Native.String.{◌++◌ as ◌++ₛ◌}
use filo_j.Prelude.{
  ℕ, suc, ◌+◌, ◌<◌, String, ◌≡◌, true, false, none, some, [], ◌∷◌, ◌++◌, Result, ok, err, arith,
  insert, elem, ◌==◌,
}
use filo_j.Shared.Errors.{Exn, is_dispatch_error}
use filo_j.Shared.Values.{pos, null, int, text, Dict, get}
use filo_j.Shared.Redis.{Redis, IsRedis}
use filo_j.Shared.World.{Published, Faults}
use filo_j.Shared.Broker.{publish, delivery_limit}
use filo_j.Dispatcher.Retry.{should_retry, jittered, compute_backoff, build_retry_message}
use filo_j.Dispatcher.WebhookRepo.{Dispatch, Post}
use filo_j.Dispatcher.Resolver.{WebhookRpc}
use filo_j.Dispatcher.ResolverLaws.{cached, get_webhook_config_hit}
use filo_j.Dispatcher.Delivery.{HttpLibraries, sign_request_body, prepare_headers, attempt_delivery}
use filo_j.Dispatcher.Processor.{
  decoded, Environment, is_retryable, deliver, retry, on_dispatch_error, handle, process_webhook,
}

module _ (lib : HttpLibraries) (env : Environment) (r : Redis) (fault : Faults) (rpc : WebhookRpc)
    (fuel : ℕ) where
  -- The handling of the payload `p`, in some state, publishes a retry with the payload `q`.
  pub data Retries (p q : Dict) : Type 0 where
    retries :
        (d : Dispatch r) (m : Published)
        → (process_webhook lib env r fault rpc fuel (decoded p) d).1.world.published
          ≡ d.world.published ++ m ∷ []
        → m.exchange ≡ "webhook.retry"
        → q ≡ m.payload
        → Retries p q

  -- Attempts that follow each other, `n` in all, from the message with the payload `p` on, which was
  -- redelivered `c` times so far: RabbitMQ gives a message again, at most `delivery_limit` times, or
  -- the attempt publishes a retry message, which is attempted next.
  pub data Chain : Dict → ℕ → ℕ → Type 0 where
    single : (p : Dict) (c : ℕ) → Chain p c 1
    redelivered : {p : Dict} {c n : ℕ} → c < delivery_limit → Chain p (suc c) n → Chain p c (suc n)
    again : {p q : Dict} {c n : ℕ} → Retries p q → Chain q 0 n → Chain p c (suc n)

-- A worker with a connected broker and a cached configuration, where no external call fails but the
-- post itself.
module _ (lib : HttpLibraries) (env : Environment) (r : Redis) (laws : IsRedis r) (fault : Faults)
    (no_fault : (n : ℕ) → fault n ≡ none) (rpc : WebhookRpc) (fuel : ℕ) (d : Dispatch r)
    (has_channel : d.world.broker.channel ≡ true)
    (has_retry : elem "webhook.retry" d.world.broker.exchanges ≡ true)
    (has_dlx : elem "dlx.exchange" d.world.broker.exchanges ≡ true) (payload : Dict)
    (dev url secret : String) (for_developer : get "developer_id" null payload ≡ text dev)
    (named : (dev == "") ≡ false)
    (has_url : cached r laws fault no_fault rpc dev "webhook_url" d.store ≡ some url)
    (has_secret : cached r laws fault no_fault rpc dev "webhook_secret" d.store ≡ some secret) where
  -- The request that is sent: four fields of the payload as JSON, to the cached URL, with the HMAC of
  -- exactly this text under the cached secret.
  abbrev pub the_post : Post
  the_post =
      let content = env.dumps "." ":" (
        ("file_id", get "file_id" null payload)
        ∷ ("status", get "status" (text "None") payload)
        ∷ ("result", get "result" null payload)
        ∷ ("event", get "event" null payload)
        ∷ []) in
      record {
        url = url;
        content = content;
        headers =
            ("Content-Type", "application/json")
            ∷ ("X-Webhook-Signature", "sha256=" ++ₛ lib.hmac_sha256 secret content)
            ∷ ("X-Webhook-Timestamp", lib.show (env.time (suc d.world.calls)))
            ∷ [];
      }

  abbrev pub answer : Result Exn (Unit {0})
  answer = attempt_delivery lib (env.post (suc d.world.calls) the_post)

  abbrev pub after_post : Dispatch r
  after_post = record d {
    world = record d.world { calls = suc (suc d.world.calls) };
    posts = d.posts ++ the_post ∷ [];
  }

  deliver_cached : deliver lib env r fault rpc (suc fuel) payload d ≡ (answer, after_post)
  unfolding deliver sign_request_body prepare_headers
  deliver_cached = ground (
    arith,
    get_webhook_config_hit r laws fault no_fault rpc dev fuel d url secret has_url has_secret,
  )

  -- A success sends the one signed post and publishes nothing.
  pub process_webhook_delivered :
      answer ≡ ok tt
      → process_webhook lib env r fault rpc (suc fuel) (decoded payload) d ≡ (ok tt, after_post)
  unfolding process_webhook
  process_webhook_delivered success = ground (arith, deliver_cached)

  -- A retryable failure of an attempt that is not the last publishes a copy of the payload with the
  -- next attempt number, under the event's routing key, with the delay in `x-delay`.
  pub process_webhook_retried :
      (e : Exn) (a : ℕ) (event : String)
      → answer ≡ err e
      → is_dispatch_error e.class ≡ true
      → is_retryable e.class ≡ true
      → get "attempt" (int (pos 0)) payload ≡ int (pos a)
      → a + 1 < 3
      → get "event" null payload ≡ text event
      → let (res, d') = process_webhook lib env r fault rpc (suc fuel) (decoded payload) d in
        (res ≡ ok tt)
        × (d'.world.published
            ≡ d.world.published
              ++ record {
                exchange = "webhook.retry";
                routing_key = event;
                payload = insert "attempt" (int (pos (a + 1))) payload;
                headers =
                    some
                      (("x-delay", jittered env.unit (env.draw (suc (suc d.world.calls))) a) ∷ []);
              }
                ∷ [])
        × (d'.posts ≡ d.posts ++ the_post ∷ [])
  unfolding process_webhook handle on_dispatch_error retry should_retry build_retry_message
      compute_backoff publish
  process_webhook_retried e a event failure dispatch retryable ha lt he =
      ground (arith, deliver_cached, no_fault (suc (suc d.world.calls)), add-one a)
