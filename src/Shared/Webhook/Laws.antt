-- ===== src/Shared/Webhook/Laws.antt =====
-- How `dispatch_to_webhook` ends, and what it has published.
use filo_j.Prelude.{
  String, ◌≡◌, refl, ◌⊎◌, inl, inr, catch, raise_if, ◌>>◌, Bool-cases, false, none, [], ◌∷◌, ◌++◌,
  ◌==◌, Result, ok, err,
}
use filo_j.Shared.Errors.{Exn, exn, value_error, webhook_dispatch_error}
use filo_j.Shared.Values.{Json, text}
use filo_j.Shared.World.{Published, World, Faults}
use filo_j.Shared.Broker.{publish}
use filo_j.Prelude.Rules.{raise_if-rule, catch-rule}
use filo_j.Shared.World.Laws.{Sends}
use filo_j.Shared.Broker.Laws.{publish-Sends, Publishes, publish-Publishes}
use filo_j.Shared.Webhook.{dispatch_to_webhook, translate, is_value_or_type_error, is_exception}

-- The message of an event.
abbrev pub webhook_message : String → String → String → Json → Json → Published
webhook_message event file_id status result developer_id = record {
  exchange = "webhook.retry";
  routing_key = event;
  payload =
      ("event", text event)
      ∷ ("file_id", text file_id)
      ∷ ("status", text status)
      ∷ ("result", result)
      ∷ ("developer_id", developer_id)
      ∷ [];
  headers = none;
}

-- The callers see a `ValueError`, a `WebhookDispatchError`, or what is no `Exception`.
abbrev pub IsReported : Exn → Type 0
IsReported e =
    (e.class ≡ value_error) ⊎ ((e.class ≡ webhook_dispatch_error) ⊎ (is_exception e.class ≡ false))

abbrev pub Dispatches :
    (String → String) → String → String → World → Published → Result Exn (Unit {0}) × World → Type 0
Dispatches strip event status w m (ok _, w') =
    ((strip event == "") ≡ false)
    × ((strip status == "") ≡ false)
    × (w'.published ≡ w.published ++ m ∷ [])
Dispatches strip event status w m (err e, w') = IsReported e × (w'.published ≡ w.published)

module _ (strip : String → String) (fault : Faults) where
  -- What the `except` clauses make of an exception
  translate-IsReported :
      (e : Exn) (w : World) → (e' : Exn) × (translate strip fault e w ≡ (err e', w)) × IsReported e'
  unfolding translate
  translate-IsReported e w = elim (Bool-cases (is_value_or_type_error e.class)) [
    | inl h ↦
        (exn webhook_dispatch_error "Failed to prepare webhook payload", rw h refl, inr (inl refl))
    | inr h ↦ elim (Bool-cases (is_exception e.class)) [
      | inl h' ↦ (
        exn webhook_dispatch_error "Failed to publish webhook event",
        rw (h, h') refl,
        inr (inl refl),
      )
      | inr h' ↦ (e, rw (h, h') refl, inr (inr h'))
    ]
  ]

  caught-Dispatches :
      (event status : String) (w : World) (m : Published) (p : Result Exn (Unit {0}) × World)
      → (strip event == "") ≡ false
      → (strip status == "") ≡ false
      → Publishes w m p
      → Dispatches strip event status w m (catch (λ _. p) (translate strip fault) w)
  caught-Dispatches event status w m (ok _, w') he hs h = (he, hs, h.0)
  caught-Dispatches event status w m (err e, w') he hs h =
      let (e', same, reported) = translate-IsReported e w' in rw same (reported, h.0)

pub dispatch_to_webhook-Sends :
    (strip : String → String) (fault : Faults) (event file_id status : String)
    (result developer_id : Json) (w : World)
    → Sends
        (webhook_message event file_id status result developer_id)
        w
        (dispatch_to_webhook strip fault event file_id status result developer_id w)
unfolding dispatch_to_webhook
dispatch_to_webhook-Sends strip fault event file_id status result developer_id w =
    let m = webhook_message event file_id status result developer_id in
    let sent = publish fault m.exchange m.routing_key m.payload m.headers in
    raise_if-rule (Sends m w) (strip event == "") (exn value_error "event is required")
      (raise_if (strip status == "") (exn value_error "status is required")
        >> catch sent (translate strip fault))
      w (λ _. (refl, refl, refl))
      (λ _.
        raise_if-rule (Sends m w) (strip status == "") (exn value_error "status is required")
          (catch sent (translate strip fault)) w (λ _. (refl, refl, refl))
          (λ _.
            catch-rule (Sends m w) (Sends m w) (sent w) (translate strip fault) w
              (publish-Sends fault m.exchange m.routing_key m.payload m.headers w)
              (λ e w' same.
                let (e', eq, reported) = translate-IsReported strip fault e w' in rw eq same)
              (λ a w' h. h)))

-- If the call returns, event and status are not blank and RabbitMQ has the one message more; if it
-- raises, nothing is published, and no exception of the broker comes through untranslated.
pub dispatch_to_webhook-Dispatches :
    (strip : String → String) (fault : Faults) (event file_id status : String) (result : Json)
    (developer_id : Json) (w : World)
    → Dispatches strip event status w
        (webhook_message event file_id status result developer_id)
        (dispatch_to_webhook strip fault event file_id status result developer_id w)
unfolding dispatch_to_webhook
dispatch_to_webhook-Dispatches strip fault event file_id status result developer_id w =
    let m = webhook_message event file_id status result developer_id in
    elim (Bool-cases (strip event == "")) [
      | inl e ↦ rw e (inl refl, refl)
      | inr he ↦ elim (Bool-cases (strip status == "")) [
        | inl e ↦ rw (he, e) (inl refl, refl)
        | inr hs ↦
            rw (he, hs)
              (caught-Dispatches strip fault event status w m
                (publish fault m.exchange m.routing_key m.payload m.headers w) he hs
                (publish-Publishes fault m.exchange m.routing_key m.payload m.headers w))
      ]
    ]
