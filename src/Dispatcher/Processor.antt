-- ===== src/Dispatcher/Processor.antt =====
-- dispatcher/orchestrator/processor.py: what `process_webhook` does within `message.process`, which
-- acknowledges the message if it returns and puts it back into the queue if it raises.
-- A developer id that is no text, and an event that is no text where it is used as a routing key,
-- are taken to be a `TypeError`.
use filo_j.Prelude.{
  ℕ, suc, String, Bool, true, false, Option, none, some, List, [], ◌∷◌, ◌++◌, Result, ok, err, Exec,
  lift, raise, raise_if, gets, catch, not, ◌>>=◌, ◌>>◌, if◌then◌else◌,
}
use filo_j.Shared.Errors.{
  Exn, ExnClass, exn, is_dispatch_error, retryable_dispatch_error, value_error, type_error,
  attribute_error,
}
use filo_j.Shared.Values.{ℤ, pos, Json, null, int, text, Dict, get, truthy}
pub use filo_j.Shared.Message.{Body, decoded, undecodable, not_a_dict}
use filo_j.Shared.Redis.{Redis}
use filo_j.Shared.World.{Faults}
use filo_j.Shared.Broker.{publish}
use filo_j.Dispatcher.Retry.{should_retry, build_retry_message, build_dead_letter_message}
use filo_j.Dispatcher.WebhookRepo.{Dispatch, Post, on_world}
use filo_j.Dispatcher.Resolver.{WebhookRpc, get_webhook_config}
use filo_j.Dispatcher.Delivery.{
  HttpLibraries, Posted, sign_request_body, prepare_headers, attempt_delivery,
}

-- What the worker does not implement: `json.dumps` with its separators, the clock and the random
-- draw when n external calls were made, and what the n-th call, a post, comes to.
pub record Environment : Type 0 where
  pub dumps : String → String → Dict → String
  pub time : ℕ → ℕ
  pub unit : ℕ
  pub draw : ℕ → ℕ
  pub post : ℕ → Post → Posted

-- `isinstance(e, ValueError)`
abbrev pub is_value_error : ExnClass → Bool
is_value_error value_error = true
is_value_error ExnClass.unicode_decode_error = true
is_value_error ExnClass.json_decode_error = true
is_value_error _ = false

-- `e.retryable`
abbrev pub is_retryable : ExnClass → Bool
is_retryable retryable_dispatch_error = true
is_retryable _ = false

abbrev pub as_text : Json → Result Exn String
as_text (text s) = ok s
as_text _ = err (exn type_error "text expected")

abbrev pub as_int : Json → Result Exn ℤ
as_int (int n) = ok n
as_int _ = err (exn type_error "int expected")

module _ (lib : HttpLibraries) (env : Environment) (r : Redis) (fault : Faults) (rpc : WebhookRpc)
    (fuel : ℕ) where
  -- `http_client.post(url, …)`: a URL that is `None` is a `TypeError` of httpx.
  abbrev pub send_post :
      Option String → String → List (String × String) → Exec (Dispatch r) Exn (Unit {0})
  send_post none content headers d = (
    err (exn type_error "Invalid type for url"),
    record d { world = record d.world { calls = suc d.world.calls } },
  )
  send_post (some url) content headers d =
      let post : Post = record { url = url; content = content; headers = headers } in
      (
        attempt_delivery lib (env.post d.world.calls post),
        record d {
          world = record d.world { calls = suc d.world.calls };
          posts = d.posts ++ post ∷ [];
        },
      )

  -- The body that is signed and sent.
  abbrev pub request_body : Dict → String
  request_body payload = env.dumps "." ":" (
      ("file_id", get "file_id" null payload)
      ∷ ("status", get "status" (text "None") payload)
      ∷ ("result", get "result" null payload)
      ∷ ("event", get "event" null payload)
      ∷ [])

  -- The `try` block, once the payload is there
  unfoldable pub deliver : Dict → Exec (Dispatch r) Exn (Unit {0})
  deliver payload = do
    let developer_id = get "developer_id" null payload
    raise_if (not (truthy developer_id)) (exn value_error "Developer id is required")
    developer ← lift (as_text developer_id)
    (webhook_url, webhook_secret) ← get_webhook_config r fault rpc fuel developer
    let raw_body = request_body payload
    now ← gets (λ d. env.time d.world.calls)
    let signature = sign_request_body lib webhook_secret raw_body
    send_post webhook_url raw_body (prepare_headers lib now signature)

  unfoldable pub retry : Dict → Exec (Dispatch r) Exn (Unit {0})
  retry payload = do
    attempt ← lift (as_int (get "attempt" (int (pos 0)) payload))
    draw ← gets (λ d. env.draw d.world.calls)
    (new_payload, headers) ← lift (build_retry_message env.unit draw payload attempt)
    event ← lift (as_text (get "event" null payload))
    on_world r (publish fault "webhook.retry" event new_payload (some headers))

  unfoldable pub dead_letter : Dict → String → Exec (Dispatch r) Exn (Unit {0})
  dead_letter payload error = do
    now ← gets (λ d. env.time d.world.calls)
    dead_payload ← lift (build_dead_letter_message now payload error)
    on_world r (publish fault "dlx.exchange" "webhook.dead" dead_payload none)

  -- `except DispatchError`
  unfoldable pub on_dispatch_error : Dict → Exn → Exec (Dispatch r) Exn (Unit {0})
  on_dispatch_error payload e =
      if is_retryable e.class
      then (do
        attempt ← lift (as_int (get "attempt" (int (pos 0)) payload))
        if should_retry attempt then retry payload else dead_letter payload e.message)
      else dead_letter payload e.message

  -- The three `except` clauses. The second calls `e.lower()`, which a `ValueError` does not have.
  unfoldable pub handle : Dict → Exn → Exec (Dispatch r) Exn (Unit {0})
  handle payload e =
      if is_dispatch_error e.class
      then on_dispatch_error payload e
      else if is_value_error e.class
      then raise (exn attribute_error "'ValueError' object has no attribute 'lower'")
      else raise e

  unfoldable pub process_webhook : Body → Exec (Dispatch r) Exn (Unit {0})
  process_webhook (decoded payload) = catch (deliver payload) (handle payload)
  process_webhook (undecodable e) = handle [] e
  process_webhook not_a_dict = handle [] (exn attribute_error "object has no attribute 'get'")
