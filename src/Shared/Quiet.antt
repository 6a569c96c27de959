-- ===== src/Shared/Quiet.antt =====
-- The shared operations when no call fails: each gives back its result and the next state.
use filo_j.Prelude.{
  ℕ, zero, suc, String, ◌≡◌, refl, ap, ◌∙◌, Bool, true, false, not, Option, none, List, [], ◌∷◌,
  ◌++◌, select, elem, ok, Exec, raise_if, gets, modify, catch, arith, eq_refl, ◌==◌, ◌>>=◌, ◌>>◌,
}
use filo_j.Prelude.Rules.{bind-ok, raise_if-passed}
use filo_j.Shared.Errors.{Exn, exn, runtime_error, key_error, client_error, value_error}
use filo_j.Shared.Values.{Json, text, Dict}
use filo_j.Shared.World.{Published, World, tick, call, quiet}
use filo_j.Shared.Rows.{one_or_none, select_one}
use filo_j.Shared.Broker.{publish}
use filo_j.Shared.Storage.{
  upload_bucket, quarantine_bucket, has_object, put_object, remove_object, on_object, read_chunks,
  get_file_stream, move_to_quarantine,
}
use filo_j.Shared.Webhook.{translate, dispatch_to_webhook}
use filo_j.Shared.Webhook.Laws.{webhook_message}

-- The state when a message was sent
abbrev pub sent : Published → World → World
sent m w = record w { calls = suc w.calls; published = w.published ++ m ∷ [] }

-- The client can publish to the exchange.
abbrev pub IsOpen : String → World → Type 0
IsOpen exchange w = (w.broker.channel ≡ true) × (elem exchange w.broker.exchanges ≡ true)

pub publish-quiet :
    (x k : String) (p : Dict) (h : Option (List (String × ℕ))) (w : World)
    → IsOpen x w
    → publish quiet x k p h w
      ≡ (ok tt, sent (record { exchange = x; routing_key = k; payload = p; headers = h }) w)
unfolding publish
publish-quiet x k p h w ready =
    let send : Exec World Exn (Unit {0}) = call quiet (λ w. record w {
      published =
          w.published ++ record { exchange = x; routing_key = k; payload = p; headers = h } ∷ [];
    }) in
    raise_if-passed (not w.broker.channel)
      (exn runtime_error "BrokerClient is not connected. Call connect() first.")
      (gets (λ w. w.broker.exchanges) >>= λ exchanges.
        raise_if (not (elem x exchanges)) (exn key_error "Exchange is not set up.") >> send)
      w (ap not ready.0)
    ∙ raise_if-passed (not (elem x w.broker.exchanges)) (exn key_error "Exchange is not set up.")
        send w (ap not ready.1)

pub select_one-quiet :
    {A : Type 0} (rows : World → List A) (test : A → Bool) (w : World) (found : List A)
    → select test (rows w) ≡ found
    → select_one quiet rows test w ≡ (one_or_none found, tick w)
unfolding select_one
select_one-quiet rows test w found e = ap (λ xs. (one_or_none xs, tick w)) e

pub dispatch_to_webhook-quiet :
    (strip : String → String) (event file_id status : String) (result developer_id : Json)
    (w : World)
    → (strip event == "") ≡ false
    → (strip status == "") ≡ false
    → IsOpen "webhook.retry" w
    → dispatch_to_webhook strip quiet event file_id status result developer_id w
      ≡ (ok tt, sent (webhook_message event file_id status result developer_id) w)
unfolding dispatch_to_webhook
dispatch_to_webhook-quiet strip event file_id status result developer_id w he hs ready =
    let payload =
      ("event", text event)
      ∷ ("file_id", text file_id)
      ∷ ("status", text status)
      ∷ ("result", result)
      ∷ ("developer_id", developer_id)
      ∷ [] in
    let send = catch (publish quiet "webhook.retry" event payload none) (translate strip quiet) in
    raise_if-passed (strip event == "") (exn value_error "event is required")
      (raise_if (strip status == "") (exn value_error "status is required") >> send) w he
    ∙ (raise_if-passed (strip status == "") (exn value_error "status is required") send w hs
        ∙ ap (λ p. catch (λ (_ : World). p) (translate strip quiet) w)
            (publish-quiet "webhook.retry" event payload none w ready))

-- An operation on an object that is there
pub on_object-quiet :
    (bucket key : String) (effect : World → World) (w : World)
    → has_object bucket key w.objects ≡ true
    → on_object quiet bucket key effect w ≡ (ok tt, effect (tick w))
on_object-quiet bucket key effect w there =
    raise_if-passed (not (has_object bucket key w.objects)) (exn client_error "404") (modify effect)
      (tick w) (ap not there)

-- The state after that many more calls
abbrev pub later : ℕ → World → World
later zero w = w
later (suc n) w = later n (tick w)

read_chunks-quiet : (n : ℕ) (w : World) → read_chunks quiet n w ≡ (ok tt, later n w)
unfolding read_chunks
read_chunks-quiet zero w = refl
read_chunks-quiet (suc n) w = read_chunks-quiet n (tick w)

later-eq : (n : ℕ) (w : World) → (calls : ℕ) × (later n w ≡ record w { calls = calls })
later-eq zero w = (w.calls, refl)
later-eq (suc n) w = later-eq n (tick w)

-- The whole download; how many calls it took is left ready.
pub get_file_stream-quiet :
    (key : String) (n : ℕ) (w : World)
    → has_object upload_bucket key w.objects ≡ true
    → (calls : ℕ) × (get_file_stream quiet key n w ≡ (ok tt, record w { calls = calls }))
unfolding get_file_stream
get_file_stream-quiet key n w there =
    let (calls, e) = later-eq n (tick w) in
    (
      calls,
      bind-ok (on_object quiet upload_bucket key (λ w. w) w) (λ _. read_chunks quiet n) w (tick w)
          tt (on_object-quiet upload_bucket key (λ w. w) w there)
          (read_chunks-quiet n (tick w) ∙ ap (λ w. (ok tt, w)) e),
    )

-- The state after a move
abbrev pub moved : String → World → World
moved key w =
    remove_object upload_bucket key (tick (tick (put_object quarantine_bucket key (tick w))))

pub move_to_quarantine-quiet :
    (key : String) (w : World)
    → has_object upload_bucket key w.objects ≡ true
    → move_to_quarantine quiet key w ≡ (ok tt, moved key w)
unfolding move_to_quarantine put_object
move_to_quarantine-quiet key w there =
    let w1 = put_object quarantine_bucket key (tick w) in
    bind-ok (on_object quiet upload_bucket key (put_object quarantine_bucket key) w)
      (λ _.
        on_object quiet quarantine_bucket key (λ w. w)
        >> call quiet (remove_object upload_bucket key))
      w w1 tt (on_object-quiet upload_bucket key (put_object quarantine_bucket key) w there)
      (bind-ok (on_object quiet quarantine_bucket key (λ w. w) w1)
        (λ _. call quiet (remove_object upload_bucket key)) w1 (tick w1) tt
        (on_object-quiet quarantine_bucket key (λ w. w) w1 (ground (arith, eq_refl key))) refl)
