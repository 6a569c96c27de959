-- ===== src/Pipeline/Delivery.antt =====
-- api/main.py, security_scanner/worker.py and dispatcher/orchestrator/processor.py: how a developer is told
-- of the verdict on a new upload, when no call fails.
use filo_j.Prelude.{
  ℕ, suc, String, ◌≡◌, refl, sym, ap, subst, ◌∙◌, Bool, true, false, ◌&&◌, Option, none, some, [],
  ◌∷◌, ◌++◌, elem, Result, ok, Exec, arith, ◌==◌, Bool-cases, inl, inr,
}
use filo_j.Shared.Errors.{Exn}
use filo_j.Shared.Values.{Json, text}
use Prim.Native.String.{◌++◌ as ◌++ₛ◌}
use filo_j.Shared.World.{Published, World, BrokerClient, quiet}
use filo_j.Shared.Redis.{Redis, IsRedis}
use filo_j.Shared.Redis.Keys.{web_hook_config_key}
use filo_j.Shared.Message.{Body, decoded}
use filo_j.Api
use filo_j.Api.{UploadFile, DeveloperHeaders}
use filo_j.Api.Quiet.{file_id, file_row, IsNew}
use filo_j.SecurityScanner.Frame.{ScanReply, Frame}
use filo_j.SecurityScanner.Worker
use filo_j.SecurityScanner.Worker.{is_clean, is_image}
use filo_j.SecurityScanner.Worker.Quiet.{Answers}
use filo_j.SecurityScanner.Worker.Verdicts.{CanPublish, IsStrip}
use filo_j.Dispatcher.WebhookRepo.{Dispatch, Post}
use filo_j.Dispatcher.Resolver.{WebhookRpc}
use filo_j.Dispatcher.Delivery.{HttpLibraries, attempt_delivery}
use filo_j.Dispatcher.Processor.{Environment, process_webhook}
use filo_j.Dispatcher.Attempts.{process_webhook_delivered}
use filo_j.Pipeline.{last_message}
use filo_j.Pipeline.Scan.{IsFresh, told, upload_and_scan}
use filo_j.Pipeline.Verdicts.{upload_and_scan_infected, upload_and_scan_completed}

-- The last message, as the dispatcher gets it
abbrev pub body_of : Option Published → Body
body_of none = decoded []
body_of (some m) = decoded m.payload

-- The event and the status that the scanner reports, for a clean file that is no image and for another
abbrev pub event_of : Bool → String
event_of true = "event.job.completed"
event_of false = "event.job.quarantined"

abbrev pub status_of : Bool → String
status_of true = "completed"
status_of false = "infected"

-- The developer gets one post: the JSON of the file's id, its status, the result of the scan and the
-- event, with the HMAC of exactly this text under the secret. Nothing else is sent.
abbrev pub Tells :
    (http : HttpLibraries) (env : Environment) (r : Redis)
    → String
    → String
    → String
    → String
    → Json
    → String
    → Dispatch r
    → Result Exn (Unit {0}) × Dispatch r
    → Type 0
Tells http env r url secret file_id status scan_data event d (result, d') =
    let content = env.dumps "." ":" (
      ("file_id", text file_id)
      ∷ ("status", text status)
      ∷ ("result", scan_data)
      ∷ ("event", text event)
      ∷ []) in
    (result ≡ ok tt)
    × (d'.world.published ≡ d.world.published)
    × (time : ℕ) × (d'.posts
        ≡ d.posts
          ++ record {
            url = url;
            content = content;
            headers =
                ("Content-Type", "application/json")
                ∷ ("X-Webhook-Signature", "sha256=" ++ₛ http.hmac_sha256 secret content)
                ∷ ("X-Webhook-Timestamp", http.show time)
                ∷ [];
          }
            ∷ [])

module _ (api : Api.Libraries) (lib : Worker.Libraries) (scan : Exec World Exn ScanReply)
    (reply : ScanReply) (headers : DeveloperHeaders) (upload : UploadFile) where
  -- What the dispatcher has, with a client of RabbitMQ of its own, when the scanner is done
  abbrev pub at_dispatcher : {r : Redis} → ℕ → Frame → BrokerClient → Dispatch r → Dispatch r
  at_dispatcher n f client d = record d {
    world = record (upload_and_scan api lib scan headers upload n f).1.world { broker = client };
  }

  abbrev pub verdict_told : World → Published
  verdict_told w =
      told api lib scan reply headers upload (event_of (is_clean reply))
        (status_of (is_clean reply)) w

  module _ (answers : Answers scan reply) (words : IsStrip lib.strip) (n : ℕ) (f : Frame)
      (new : IsNew api headers upload f.world)
      (fresh : IsFresh api lib scan reply headers upload f.world) (ready : CanPublish f.world)
      (done : (is_clean reply && is_image (file_row api headers upload f.world)) ≡ false) where
    last-told :
        last_message none (upload_and_scan api lib scan headers upload n f).1.world.published
        ≡ some (verdict_told f.world)
    last-told = elim (Bool-cases (is_clean reply)) [
      | inl e ↦
          (upload_and_scan_completed api lib scan reply headers upload answers words n f new fresh
            ready e (ground (arith, e, done))).0.2
          ∙ ap
              (λ b.
                some (told api lib scan reply headers upload (event_of b) (status_of b) f.world))
              (sym e)
      | inr e ↦
          (upload_and_scan_infected api lib scan reply headers upload answers words n f new fresh
            ready e).0.2
          ∙ ap
              (λ b.
                some (told api lib scan reply headers upload (event_of b) (status_of b) f.world))
              (sym e)
    ]

    module _ (http : HttpLibraries) (env : Environment) (r : Redis) (laws : IsRedis r)
        (rpc : WebhookRpc) (fuel : ℕ) (d : Dispatch r) (client : BrokerClient)
        (url secret : String) where
      -- A new upload, if no call fails: unless it is a clean image, which goes on to the image processor,
      -- the dispatcher, given the last message of the scanner, sends its developer one post and publishes
      -- nothing. The post has the id of the file, the status `completed` or `infected`, the result of the
      -- scan and the event, and the HMAC of this body under the developer's secret. The configuration of the webhook is cached, the
      -- endpoint accepts what is posted, the dispatcher's client is connected, the ids and the key of the
      -- upload are new, and the scanner reads an id as the API writes it.
      pub upload_and_scan-Tells :
          client.channel ≡ true
          → elem "webhook.retry" client.exchanges ≡ true
          → elem "dlx.exchange" client.exchanges ≡ true
          → (headers.developer_id == "") ≡ false
          → r.hget (web_hook_config_key headers.developer_id) "webhook_url" d.store ≡ some url
          → r.hget (web_hook_config_key headers.developer_id) "webhook_secret" d.store ≡ some secret
          → ((n : ℕ) (post : Post) → attempt_delivery http (env.post n post) ≡ ok tt)
          → Tells http env r url secret
              (lib.show_uuid (file_id api headers upload f.world))
              (status_of (is_clean reply))
              (lib.scan_data reply)
              (event_of (is_clean reply))
              (at_dispatcher n f client d)
              (process_webhook http env r quiet rpc
                (suc fuel)
                (body_of (
                  last_message none
                    (upload_and_scan api lib scan headers upload n f).1.world.published))
                (at_dispatcher n f client d))
      upload_and_scan-Tells channel retry dlx named has_url has_secret accepts =
          let d1 = at_dispatcher n f client d in
          let payload = (verdict_told f.world).payload in
          let sent =
            process_webhook_delivered http env r laws quiet (λ n. refl) rpc fuel d1 channel retry
              dlx payload headers.developer_id url secret refl named has_url has_secret
              (accepts _ _) in
          subst
            (Tells http env r url secret (lib.show_uuid (file_id api headers upload f.world))
              (status_of (is_clean reply)) (lib.scan_data reply) (event_of (is_clean reply)) d1)
            (sym (
              ap (λ m. process_webhook http env r quiet rpc (suc fuel) (body_of m) d1) last-told
              ∙ sent))
            (refl, refl, env.time (suc d1.world.calls), refl)
