-- ===== src/Dispatcher/ProcessorLaws.antt =====
-- What becomes of one webhook message.
use native.Mathlib.Numerals.{add-one}
use filo_j.Prelude.{
  ℕ, suc, ◌+◌, ◌<◌, String, ◌≡◌, ◌⊎◌, inl, inr, refl, ap, subst, true, Option, none, some, List, [],
  ◌∷◌, ◌++◌, Result, ok, err, arith, insert, Bool-cases, ◌>>=◌, catch,
}
use filo_j.Shared.Errors.{Exn, is_dispatch_error}
use filo_j.Shared.Values.{ℤ, pos, Json, null, int, text, Dict, get, truthy}
use filo_j.Shared.Redis.{Redis}
use filo_j.Shared.World.{World, Published, Faults}
use filo_j.Shared.Broker.{publish}
use filo_j.Shared.Broker.Laws.{Publishes, publish-Publishes}
use filo_j.Dispatcher.Retry.{
  should_retry, jittered, compute_backoff, build_retry_message, build_dead_letter_message,
}
use filo_j.Dispatcher.WebhookRepo.{Dispatch, Post, on_world}
use filo_j.Dispatcher.Resolver.{WebhookRpc, get_webhook_config}
use filo_j.Dispatcher.ResolverLaws.{Leaves, get_webhook_config-Leaves}
use filo_j.Dispatcher.Delivery.{HttpLibraries, sign_request_body, prepare_headers}
use filo_j.Dispatcher.Processor.{
  decoded, Environment, is_value_error, is_retryable, as_text, as_int, send_post, request_body,
  deliver, retry, dead_letter, on_dispatch_error, handle, process_webhook,
}

module _ (lib : HttpLibraries) (env : Environment) (r : Redis) (fault : Faults) (rpc : WebhookRpc)
    (fuel : ℕ) where
  -- The message that a retry publishes.
  abbrev pub IsRetryOf : Dict → ℕ → Published → Type 0
  IsRetryOf payload attempt m =
      (m.exchange ≡ "webhook.retry")
      × (get "event" null payload ≡ text m.routing_key)
      × (m.payload ≡ insert "attempt" (int (pos (suc attempt))) payload)

  -- What `publish` did within an action of the worker.
  on_world-Publishes :
      (x k : String) (p : Dict) (h : Option (List (String × ℕ))) (d : Dispatch r)
      → let (res, d') = on_world r (publish fault x k p h) d in
        Publishes d.world
          (record { exchange = x; routing_key = k; payload = p; headers = h })
          (res, d'.world)
  on_world-Publishes x k p h d = publish-Publishes fault x k p h d.world

  -- What RabbitMQ has after a message, against what it had before: the same, one retry more, which
  -- only an attempt below the last one brings about, or one dead letter more.
  pub data Outcome (payload : Dict) (before after : List Published) : Type 0 where
    nothing : after ≡ before → Outcome payload before after
    retried :
        (attempt : ℕ) (m : Published)
        → after ≡ before ++ m ∷ []
        → get "attempt" (int (pos 0)) payload ≡ int (pos attempt)
        → attempt + 1 < 3
        → IsRetryOf payload attempt m
        → Outcome payload before after
    dead :
        (m : Published)
        → after ≡ before ++ m ∷ []
        → m.exchange ≡ "dlx.exchange"
        → m.routing_key ≡ "webhook.dead"
        → Outcome payload before after

  Result-cases : (x : Result Exn Dict) → ((p : Dict) × (x ≡ ok p)) ⊎ ((e : Exn) × (x ≡ err e))
  Result-cases (ok p) = inl (p, refl)
  Result-cases (err e) = inr (e, refl)

  as_int-cases :
      (j : Json) → ((n : ℤ) × (as_int j ≡ ok n) × (j ≡ int n)) ⊎ ((e : Exn) × (as_int j ≡ err e))
  as_int-cases (int n) = inl (n, refl, refl)
  as_int-cases null = inr (_, refl)
  as_int-cases (text s) = inr (_, refl)
  as_int-cases (Json.opaque b i) = inr (_, refl)

  as_text-cases :
      (j : Json)
      → ((s : String) × (as_text j ≡ ok s) × (j ≡ text s)) ⊎ ((e : Exn) × (as_text j ≡ err e))
  as_text-cases (text s) = inl (s, refl, refl)
  as_text-cases null = inr (_, refl)
  as_text-cases (int n) = inr (_, refl)
  as_text-cases (Json.opaque b i) = inr (_, refl)

  Publishes-cases :
      (w : World) (m : Published) (out : Result Exn (Unit {0}) × World)
      → Publishes w m out
      → (out.1.published ≡ w.published ++ m ∷ []) ⊎ (out.1.published ≡ w.published)
  Publishes-cases w m (ok _, w') p = inl p.0
  Publishes-cases w m (err _, w') p = inr p.0

  retry-Outcome :
      (payload : Dict) (d : Dispatch r) (n : ℤ)
      → get "attempt" (int (pos 0)) payload ≡ int n
      → should_retry n ≡ true
      → Outcome payload d.world.published
          (retry lib env r fault rpc fuel payload d).1.world.published
  unfolding retry build_retry_message compute_backoff should_retry
  retry-Outcome payload d (ℤ.negsuc n) ha hs = nothing (ground arith)
  retry-Outcome payload d (pos a) ha hs = elim (as_text-cases (get "event" null payload)) [
    | inr (e, p) ↦ nothing (ground arith)
    | inl (key, p, q) ↦
        let new_payload = insert "attempt" (int (pos (suc a))) payload in
        let headers = ("x-delay", jittered env.unit (env.draw d.world.calls) a) ∷ [] in
        let m : Published = record {
          exchange = "webhook.retry";
          routing_key = key;
          payload = new_payload;
          headers = some headers;
        } in
        elim (Publishes-cases d.world m
          (publish fault "webhook.retry" key new_payload (some headers) d.world)
          (publish-Publishes fault "webhook.retry" key new_payload (some headers) d.world)) [
            | inl more ↦ retried a m (ground (arith, add-one a)) ha (ground arith) (refl, q, refl)
            | inr same ↦ nothing (ground (arith, add-one a))
          ]
  ]

  dead_letter-Outcome :
      (payload : Dict) (error : String) (d : Dispatch r)
      → Outcome payload d.world.published
          (dead_letter lib env r fault rpc fuel payload error d).1.world.published
  unfolding dead_letter
  dead_letter-Outcome payload error d = elim (made (env.time d.world.calls)) [
    | inr (e, p) ↦ nothing (ground arith)
    | inl (dead_payload, p) ↦
        let m : Published = record {
          exchange = "dlx.exchange";
          routing_key = "webhook.dead";
          payload = dead_payload;
          headers = none;
        } in
        elim (Publishes-cases d.world m
          (publish fault "dlx.exchange" "webhook.dead" dead_payload none d.world)
          (publish-Publishes fault "dlx.exchange" "webhook.dead" dead_payload none d.world)) [
            | inl more ↦ dead m (ground arith) refl refl
            | inr same ↦ nothing (ground arith)
          ]
  ]
    where
      made :
          (now : ℕ)
          → ((p : Dict) × (build_dead_letter_message now payload error ≡ ok p))
            ⊎ ((e : Exn) × (build_dead_letter_message now payload error ≡ err e))
      made now = Result-cases (build_dead_letter_message now payload error)

  on_dispatch_error-Outcome :
      (payload : Dict) (e : Exn) (d : Dispatch r)
      → Outcome payload d.world.published
          (on_dispatch_error lib env r fault rpc fuel payload e d).1.world.published
  unfolding on_dispatch_error
  on_dispatch_error-Outcome payload e d = elim (Bool-cases (is_retryable e.class)) [
    | inr final ↦ rw final (dead_letter-Outcome payload e.message d)
    | inl retryable ↦ rw retryable (elim (as_int-cases (get "attempt" (int (pos 0)) payload)) [
      | inr (x, p) ↦ rw p (nothing refl)
      | inl (n, p, q) ↦ rw p (elim (Bool-cases (should_retry n)) [
        | inl more ↦ rw more (retry-Outcome payload d n q more)
        | inr last ↦ rw last (dead_letter-Outcome payload e.message d)
      ])
    ])
  ]

  handle-Outcome :
      (payload : Dict) (e : Exn) (d : Dispatch r)
      → Outcome payload d.world.published
          (handle lib env r fault rpc fuel payload e d).1.world.published
  unfolding handle
  handle-Outcome payload e d = elim (Bool-cases (is_dispatch_error e.class)) [
    | inl yes_dispatch ↦ rw yes_dispatch (on_dispatch_error-Outcome payload e d)
    | inr other ↦ rw other (elim (Bool-cases (is_value_error e.class)) [
      | inl value ↦ rw value (nothing refl)
      | inr rest ↦ rw rest (nothing refl)
    ])
  ]

  -- What the `try` block does to the outside world.
  abbrev pub Sends : Dispatch r → Dispatch r → Type 0
  Sends d d' =
      (d'.world.published ≡ d.world.published)
      × ((d'.posts ≡ d.posts) ⊎ ((p : Post) × (d'.posts ≡ d.posts ++ p ∷ [])))

  send_post-Sends :
      (d0 d : Dispatch r) (url : Option String) (content : String)
      (headers : List (String × String))
      → Leaves r fault rpc d0 d
      → Sends d0 (send_post lib env r fault rpc fuel url content headers d).1
  send_post-Sends d0 d none content headers h = (h.0, inl h.2)
  send_post-Sends d0 d (some url) content headers h = (
    h.0,
    inr (
      record { url = url; content = content; headers = headers },
      ap (λ ps. ps ++ record { url = url; content = content; headers = headers } ∷ []) h.2,
    ),
  )

  found-Sends :
      (payload : Dict) (d : Dispatch r)
      (found : Result Exn (Option String × Option String) × Dispatch r)
      → Leaves r fault rpc d found.1
      → Sends d
          (((λ (_ : Dispatch r). found) >>= λ (url, secret).
              (λ (d1 : Dispatch r). (ok (env.time d1.world.calls), d1)) >>= λ now.
              send_post lib env r fault rpc fuel url
                (request_body lib env r fault rpc fuel payload)
                (prepare_headers lib now
                  (sign_request_body lib secret (request_body lib env r fault rpc fuel payload))))
            d).1
  found-Sends payload d (err e, d1) h = (h.0, inl h.2)
  found-Sends payload d (ok (url, secret), d1) h =
      send_post-Sends d d1 url (request_body lib env r fault rpc fuel payload) _ h

  deliver-Sends :
      (payload : Dict) (d : Dispatch r) → Sends d (deliver lib env r fault rpc fuel payload d).1
  unfolding deliver
  deliver-Sends payload d = elim (Bool-cases (truthy (get "developer_id" null payload))) [
    | inr missing ↦ rw missing (refl, inl refl)
    | inl given ↦ rw given (elim (as_text-cases (get "developer_id" null payload)) [
      | inr (e, p) ↦ rw p (refl, inl refl)
      | inl (dev, p, q) ↦ rw p (
          found-Sends payload d (get_webhook_config r fault rpc fuel dev d)
            (get_webhook_config-Leaves r fault rpc fuel dev d))
    ])
  ]

  caught-Outcome :
      (payload : Dict) (d : Dispatch r) (tried : Result Exn (Unit {0}) × Dispatch r)
      → tried.1.world.published ≡ d.world.published
      → Outcome payload d.world.published
          (catch
            (λ (_ : Dispatch r). tried)
            (handle lib env r fault rpc fuel payload)
            d).1.world.published
  caught-Outcome payload d (ok _, d1) h = nothing h
  caught-Outcome payload d (err e, d1) h =
      subst
        (λ before.
          Outcome payload before (handle lib env r fault rpc fuel payload e d1).1.world.published)
        h (handle-Outcome payload e d1)

  -- Whatever fails, one message leads to at most one message of its own: a retry, which comes only
  -- from an attempt with `attempt + 1 < 3` and carries the next number, or a dead letter.
  pub process_webhook-Outcome :
      (payload : Dict) (d : Dispatch r)
      → Outcome payload d.world.published
          (process_webhook lib env r fault rpc fuel (decoded payload) d).1.world.published
  unfolding process_webhook
  process_webhook-Outcome payload d =
      caught-Outcome payload d (deliver lib env r fault rpc fuel payload d)
        (deliver-Sends payload d).0
