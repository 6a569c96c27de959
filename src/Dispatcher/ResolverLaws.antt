-- ===== src/Dispatcher/ResolverLaws.antt =====
-- Where `WebhookConfigResolver` gets a configuration from.
use filo_j.Prelude.{
  ℕ, zero, suc, String, ◌≡◌, refl, Option, none, some, List, [], ◌∷◌, Result, ok, err, arith,
  lookup, eq_refl, ◌>>=◌, ◌>>◌,
}
use filo_j.Shared.Errors.{Exn}
use filo_j.Shared.Redis.{Redis, IsRedis}
use filo_j.Shared.Redis.Keys.{web_hook_config_key}
use filo_j.Shared.World.{Faults}
use filo_j.Gateway.AuthClient.{answered}
use filo_j.Dispatcher.WebhookRepo.{Dispatch, cache_webhook_config, get_cache_data}
use filo_j.Dispatcher.Resolver.{
  WebhookConfigResponse, look_up_webhook_config, WebhookRpc, config_of, or_look_up,
  get_webhook_config,
}

module _ (r : Redis) (laws : IsRedis r) (fault : Faults) (no_fault : (n : ℕ) → fault n ≡ none)
    (rpc : WebhookRpc) (dev : String) where
  abbrev pub cached : String → r.Store → Option String
  cached f s = r.hget (web_hook_config_key dev) f s

  -- Only the number of external calls grows.
  abbrev pub after_calls : ℕ → Dispatch r → Dispatch r
  after_calls n d = record d { world = record d.world { calls = n } }

  -- A configuration that is in the cache is what the call returns, and nothing else happens.
  pub get_webhook_config_hit :
      (fuel : ℕ) (d : Dispatch r) (url secret : String)
      → cached "webhook_url" d.store ≡ some url
      → cached "webhook_secret" d.store ≡ some secret
      → get_webhook_config r fault rpc (suc fuel) dev d
        ≡ (ok (some url, some secret), after_calls (suc d.world.calls) d)
  unfolding get_webhook_config get_cache_data
  get_webhook_config_hit fuel d url secret hu hs = ground (
    arith,
    no_fault d.world.calls,
    laws.hgetall_lem (web_hook_config_key dev) "webhook_url" d.store,
    laws.hgetall_lem (web_hook_config_key dev) "webhook_secret" d.store,
  )

  abbrev pub stored : WebhookConfigResponse → r.Store → r.Store
  stored response s =
      r.expire (web_hook_config_key dev) 600
        (r.hset (web_hook_config_key dev) (config_of response) s)

  cached-stored :
      (f v : String) (response : WebhookConfigResponse) (s : r.Store)
      → lookup f (config_of response) ≡ some v
      → cached f (stored response s) ≡ some v
  cached-stored f v response s e =
      let k = web_hook_config_key dev in
      rw (laws.hget-expire k k f 600 (r.hset k (config_of response) s))
        (rw (laws.hget-hset k k f (config_of response) s) (rw (eq_refl k) (rw e refl)))

  abbrev refreshed : WebhookConfigResponse → Dispatch r → Dispatch r
  refreshed response d = record d {
    world = record d.world { calls = suc (suc (suc (suc d.world.calls))) };
    store = stored response d.store;
  }

  resolver_refresh :
      (fuel : ℕ) (d : Dispatch r) (response : WebhookConfigResponse)
      → r.hgetall (web_hook_config_key dev) d.store ≡ []
      → rpc (suc d.world.calls) dev ≡ answered response
      → get_webhook_config r fault rpc (suc fuel) dev d
        ≡ get_webhook_config r fault rpc fuel dev (refreshed response d)
  unfolding get_webhook_config get_cache_data cache_webhook_config look_up_webhook_config
  resolver_refresh fuel d response hm hr = ground (
    arith,
    no_fault d.world.calls,
    no_fault (suc (suc d.world.calls)),
    no_fault (suc (suc (suc d.world.calls))),
  )

  -- With no failing call, a developer without an entry in the cache is looked up once: the call
  -- returns the URL and the secret of the answer, whether or not the answer says that a
  -- configuration was found, and the cache holds them afterwards. Two calls deep is enough.
  pub get_webhook_config_miss :
      (fuel : ℕ) (d : Dispatch r) (response : WebhookConfigResponse)
      → r.hgetall (web_hook_config_key dev) d.store ≡ []
      → rpc (suc d.world.calls) dev ≡ answered response
      → let (res, d') = get_webhook_config r fault rpc (suc (suc fuel)) dev d in
        (res ≡ ok (some response.webhook_url, some response.webhook_secret))
        × (cached "webhook_url" d'.store ≡ some response.webhook_url)
        × (cached "webhook_secret" d'.store ≡ some response.webhook_secret)
        × (d'.posts ≡ d.posts)
        × (d'.world.published ≡ d.world.published)
  get_webhook_config_miss fuel d response hm hr =
      let url = cached-stored "webhook_url" response.webhook_url response d.store refl in
      let secret = cached-stored "webhook_secret" response.webhook_secret response d.store refl in
      rw (resolver_refresh (suc fuel) d response hm hr) (
        rw
          (get_webhook_config_hit fuel (refreshed response d) response.webhook_url
            response.webhook_secret url secret)
          (refl, url, secret, refl, refl))

module _ (r : Redis) (fault : Faults) (rpc : WebhookRpc) where
  -- What the search for a configuration leaves alone, whatever fails.
  abbrev pub Leaves : Dispatch r → Dispatch r → Type 0
  Leaves d d' =
      (d'.world.published ≡ d.world.published)
      × (d'.world.broker ≡ d.world.broker)
      × (d'.posts ≡ d.posts)

  cache_webhook_config-Leaves :
      (dev : String) (m : List (String × String)) (d : Dispatch r)
      → Leaves d (cache_webhook_config r fault dev m 600 d).1
  unfolding cache_webhook_config
  cache_webhook_config-Leaves dev m d = ground arith

  get_cache_data-Leaves :
      (dev : String) (d : Dispatch r) → Leaves d (get_cache_data r fault dev d).1
  unfolding get_cache_data
  get_cache_data-Leaves dev d = ground arith

  module _ (dev : String)
      (again : Dispatch r → Result Exn (Option String × Option String) × Dispatch r)
      (again_Leaves : (d : Dispatch r) → Leaves d (again d).1) where
    stored-Leaves :
        (d0 d : Dispatch r) (stored : Result Exn (Unit {0}) × Dispatch r)
        → Leaves d0 stored.1
        → Leaves d0 (((λ (_ : Dispatch r). stored) >> again) d).1
    stored-Leaves d0 d (ok _, d1) h = ground (arith, again_Leaves d1)
    stored-Leaves d0 d (err e, d1) h = h

    asked-Leaves :
        (d0 d : Dispatch r) (asked : Result Exn WebhookConfigResponse)
        → Leaves d0 d
        → Leaves d0
            (((λ (_ : Dispatch r). (asked, d)) >>= λ response.
                cache_webhook_config r fault dev (config_of response) 600 >> again)
              d).1
    asked-Leaves d0 d (err e) h = h
    asked-Leaves d0 d (ok response) h =
        stored-Leaves d0 d (cache_webhook_config r fault dev (config_of response) 600 d)
          (ground (arith, cache_webhook_config-Leaves dev (config_of response) d))

    or_look_up-Leaves :
        (d0 : Dispatch r) (found : Result Exn (List (String × String)) × Dispatch r)
        → Leaves d0 found.1
        → Leaves d0 (((λ (_ : Dispatch r). found) >>= or_look_up r fault rpc again dev) d0).1
    or_look_up-Leaves d0 (err e, d1) h = h
    or_look_up-Leaves d0 (ok [], d1) h =
        asked-Leaves d0 (record d1 { world = record d1.world { calls = suc d1.world.calls } })
          (look_up_webhook_config (rpc d1.world.calls dev)) h
    or_look_up-Leaves d0 (ok (x ∷ xs), d1) h = h

  -- Whatever fails, the search sends no webhook and publishes nothing.
  pub get_webhook_config-Leaves :
      (fuel : ℕ) (dev : String) (d : Dispatch r)
      → Leaves d (get_webhook_config r fault rpc fuel dev d).1
  unfolding get_webhook_config
  get_webhook_config-Leaves zero dev d = (refl, refl, refl)
  get_webhook_config-Leaves (suc fuel) dev d =
      or_look_up-Leaves dev (get_webhook_config r fault rpc fuel dev)
        (λ d1. get_webhook_config-Leaves fuel dev d1) d (get_cache_data r fault dev d)
        (get_cache_data-Leaves dev d)
