-- ===== src/Tests/Dispatcher.antt =====
-- Scenarios of the dispatcher: a developer with a cached webhook, and one without.
use filo_j.Prelude.{
  ℕ, ◌≤◌, ◌<◌, ◌*◌, ◌/◌, ◌≡◌, ◌⊎◌, refl, true, false, none, some, [], ◌∷◌, ok, arith, insert, leb,
}
use Prim.Native.String.{◌++◌ as ◌++ₛ◌}
use filo_j.Shared.Errors.{
  exn, retryable_dispatch_error, permanent_dispatch_error, http_status_error, is_dispatch_error,
}
use filo_j.Shared.Values.{Dict, text, int, pos}
use filo_j.Shared.World.{Published, Faults}
use filo_j.Shared.Redis.Keys.{web_hook_config_key}
use filo_j.Shared.Redis.Memory.{memory, memory-IsRedis, empty_store}
use filo_j.Gateway.AuthClient.{answered}
use filo_j.Dispatcher.Retry.{jittered, jitter_range, capped_delay, compute_backoff, max_delay_ms}
use filo_j.Dispatcher.Backoff.{compute_backoff_bounds}
use filo_j.Dispatcher.WebhookRepo.{Dispatch}
use filo_j.Dispatcher.Resolver.{WebhookConfigResponse, WebhookRpc, get_webhook_config}
use filo_j.Dispatcher.ResolverLaws.{get_webhook_config_miss}
use filo_j.Dispatcher.Delivery.{HttpLibraries, responded, attempt_delivery}
use filo_j.Dispatcher.DeliveryLaws.{EndsBy, attempt_delivery_classes}
use filo_j.Dispatcher.Processor.{decoded, Environment, process_webhook}
use filo_j.Dispatcher.ProcessorLaws.{Outcome, process_webhook-Outcome}
use filo_j.Dispatcher.Attempts.{the_post, process_webhook_retried}
use filo_j.Tests.Broker.{ready_world}

abbrev pub lib : HttpLibraries
lib = record {
  hmac_sha256 = λ key body. body;
  show = λ n. "n";
  raises_for_status = λ code. leb 400 code;
}

abbrev pub env : ℕ → Environment
env code = record {
  dumps = λ item_separator key_separator d. "body";
  time = λ n. 1000;
  unit = 5;
  draw = λ n. 3;
  post = λ n post. responded code;
}

abbrev no_fault : Faults
no_fault n = none

abbrev response : WebhookConfigResponse
response = record { found = true; webhook_url = "https://example.org"; webhook_secret = "k" }

abbrev pub rpc : WebhookRpc
rpc n developer = answered response

abbrev pub fresh : Dispatch memory
fresh = record { world = ready_world; store = empty_store; posts = [] }

abbrev pub cached : Dispatch memory
cached = record fresh {
  store =
      memory.hset (web_hook_config_key "42")
        (("webhook_url", "https://example.org") ∷ ("webhook_secret", "k") ∷ []) empty_store;
}

abbrev first : Dict
first = ("developer_id", text "42") ∷ ("event", text "scan.completed") ∷ []

compute_backoff_bounds_example :
    (d : ℕ) × (compute_backoff 5 3 (pos 1) ≡ ok d)
    × (capped_delay 1 * 4 / 5 ≤ d)
    × (d ≤ capped_delay 1 * 6 / 5)
    × (d ≤ max_delay_ms)
unfolding jitter_range capped_delay
compute_backoff_bounds_example = compute_backoff_bounds 1 3 1 (omega arith) (omega arith)

attempt_delivery_classes_example :
    ((450 < 300) × (attempt_delivery lib (responded 450) ≡ ok tt))
    ⊎ (((300 ≤ 450)
          × (450 < 429)
          × EndsBy permanent_dispatch_error (attempt_delivery lib (responded 450)))
        ⊎ ((((◌≡◌ {A = ℕ} 450 429) ⊎ (500 ≤ 450))
              × EndsBy retryable_dispatch_error (attempt_delivery lib (responded 450)))
            ⊎ ((430 ≤ 450)
                × (450 < 500)
                × EndsBy http_status_error (attempt_delivery lib (responded 450))
                × (is_dispatch_error http_status_error ≡ false))))
attempt_delivery_classes_example =
    attempt_delivery_classes lib 450 (λ a b. absurd (omega arith)) (λ a b. refl) (omega arith)

get_webhook_config_miss_example :
    let (res, d') = get_webhook_config memory no_fault rpc 2 "42" fresh in
    (res ≡ ok (some "https://example.org", some "k"))
    × (memory.hget (web_hook_config_key "42") "webhook_url" d'.store ≡ some "https://example.org")
    × (memory.hget (web_hook_config_key "42") "webhook_secret" d'.store ≡ some "k")
    × (d'.posts ≡ [])
    × (d'.world.published ≡ [])
get_webhook_config_miss_example =
    get_webhook_config_miss memory memory-IsRedis no_fault (λ n. refl) rpc "42" 0 fresh response
      refl refl

process_webhook-Outcome_example :
    Outcome lib
      (env 500)
      memory
      no_fault
      rpc
      2
      first
      []
      (process_webhook lib (env 500) memory no_fault rpc 2 (decoded first) fresh).1.world.published
process_webhook-Outcome_example =
    process_webhook-Outcome lib (env 500) memory no_fault rpc 2 first fresh

pub has_url :
    memory.hget (web_hook_config_key "42") "webhook_url" cached.store ≡ some "https://example.org"
unfolding web_hook_config_key
has_url = refl

pub has_secret : memory.hget (web_hook_config_key "42") "webhook_secret" cached.store ≡ some "k"
unfolding web_hook_config_key
has_secret = refl

process_webhook_retried_example :
    let (res, d') = process_webhook lib (env 500) memory no_fault rpc 2 (decoded first) cached in
    (res ≡ ok tt)
    × (d'.world.published
        ≡ record {
          exchange = "webhook.retry";
          routing_key = "scan.completed";
          payload = insert "attempt" (int (pos 1)) first;
          headers = some (("x-delay", jittered 5 3 0) ∷ []);
        }
          ∷ [])
    × (d'.posts
        ≡ the_post lib
            (env 500)
            memory
            memory-IsRedis
            no_fault
            (λ n. refl)
            rpc
            1
            cached
            refl
            refl
            refl
            first
            "42"
            "https://example.org"
            "k"
            refl
            refl
            has_url
            has_secret
          ∷ [])
unfolding attempt_delivery
process_webhook_retried_example =
    process_webhook_retried lib (env 500) memory memory-IsRedis no_fault (λ n. refl) rpc 1 cached
      refl refl refl first "42" "https://example.org" "k" refl refl has_url has_secret
      (exn retryable_dispatch_error ("status " ++ₛ "n")) 0 "scan.completed" refl refl refl refl
      (omega arith) refl

abbrev second : Dict
second = insert "attempt" (int (pos 1)) first

abbrev first_retry : Published
first_retry = record {
  exchange = "webhook.retry";
  routing_key = "scan.completed";
  payload = second;
  headers = some (("x-delay", jittered 5 3 0) ∷ []);
}
