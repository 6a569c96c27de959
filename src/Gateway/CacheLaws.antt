-- ===== src/Gateway/CacheLaws.antt =====
-- What `FileServiceHandler.get_context` answers from the cache, and from the auth service when the
-- cache has lapsed.
use filo_j.Prelude.{
  ℕ, suc, String, ◌≡◌, refl, ◌∙◌, false, Option, none, some, Result, ok, err, arith, ltb, nat_eq,
  if◌then◌else◌, ◌==◌, eq_refl, lookup, ◌>>◌,
}
use filo_j.Shared.Errors.{Exn, exn, http_exception}
use filo_j.Shared.Redis.{Redis, IsRedis}
use filo_j.Shared.Redis.Keys.{api_key_meta_key, api_key_usage_key}
use filo_j.Shared.World.{Faults}
use filo_j.Gateway.ApiKeyRepo.{
  Cache, exceeded, allowed, count_request, rate_limit_script, check_and_increment, cache_metadata,
  get_cache_data,
}
use filo_j.Gateway.AuthClient.{ApiKeyLookupResponse, answered, look_up_api_key}
use filo_j.Gateway.Handlers.{Context, AuthRpc, metadata_of, cached_context, key_context}
use filo_j.Gateway.RateLimit.Store.{cnt-incr_self, cnt-counted, hget-counted}

module _ (r : Redis) (laws : IsRedis r) (fault : Faults) (no_fault : (n : ℕ) → fault n ≡ none)
    (rpc : AuthRpc) (window : ℕ → String) (w : String) (one_window : (n : ℕ) → window n ≡ w)
    (k : String) where
  abbrev meta : String → r.Store → Option String
  meta f s = r.hget (api_key_meta_key k) f s

  abbrev used : r.Store → ℕ
  used s = r.counter (api_key_usage_key k w) s

  -- The answer for a count and a limit.
  abbrev pub limited : ℕ → ℕ → Context → Result Exn Context
  limited limit count ctx =
      if ltb limit count
      then err (exn (http_exception 429) "You have hit your plan limits")
      else ok ctx

  script-cached :
      (s : r.Store) (limit : ℕ) (status : String)
      → meta "status" s ≡ some status
      → (status == "revoked") ≡ false
      → meta "requests_per_hour" s ≡ some (r.show limit)
      → let (res, s') = rate_limit_script r (api_key_meta_key k) (api_key_usage_key k w) 3700 s in
        (res ≡ (
          if ltb limit (suc (used s))
          then ok (exceeded, suc (used s))
          else ok (allowed, suc (used s))))
        × (used s' ≡ suc (used s))
        × ((f : String) → meta f s' ≡ meta f s)
  unfolding rate_limit_script count_request
  script-cached s limit status hs live hl =
      let u = api_key_usage_key k w in
      let first = nat_eq (r.counter u (r.incr u s)) 1 in
      (
        ground (arith, cnt-incr_self r laws k w limit s, laws.tonumber-show limit),
        ground
            (arith, cnt-incr_self r laws k w limit s, cnt-counted r laws k w limit k 3700 first s),
        λ f. ground (arith, hget-counted r laws k w limit k 3700 first (api_key_meta_key k) f s),
      )

  -- With the metadata of an active key in the cache and no failing call, a request is counted, and it
  -- is let through exactly if the new count does not pass the cached limit; the answer then is the
  -- cached developer and plan, and otherwise an `HTTPException` with status 429. The cached metadata
  -- stay as they are.
  pub key_context_cached :
      (fuel : ℕ) (c : Cache r) (limit : ℕ) (status : String)
      → meta "status" c.store ≡ some status
      → (status == "revoked") ≡ false
      → meta "requests_per_hour" c.store ≡ some (r.show limit)
      → let (res, c') = key_context r fault rpc window (suc fuel) k c in
        (res
          ≡ limited limit (suc (used c.store)) (meta "developer_id" c.store, meta "plan" c.store))
        × (used c'.store ≡ suc (used c.store))
        × ((f : String) → meta f c'.store ≡ meta f c.store)
  unfolding key_context check_and_increment get_cache_data
  key_context_cached fuel c limit status hs live hl =
      let s1 = (rate_limit_script r (api_key_meta_key k) (api_key_usage_key k w) 3700 c.store).1 in
      let script = script-cached c.store limit status hs live hl in
      (
        ground (
          arith,
          script,
          script.2 "developer_id",
          script.2 "plan",
          laws.hgetall_lem (api_key_meta_key k) "developer_id" s1,
          laws.hgetall_lem (api_key_meta_key k) "plan" s1,
          one_window c.calls,
          no_fault c.calls,
          no_fault (suc c.calls),
        ),
        ground (arith, script, one_window c.calls, no_fault c.calls, no_fault (suc c.calls)),
        λ f. ground (
          arith,
          script,
          script.2 f,
          one_window c.calls,
          no_fault c.calls,
          no_fault (suc c.calls),
        ),
      )

  -- The store once the answer of the auth service is cached.
  abbrev cached : ApiKeyLookupResponse → r.Store → r.Store
  cached resp s =
      r.expire (api_key_meta_key k) 300 (r.hset (api_key_meta_key k) (metadata_of r resp) s)

  meta-cached :
      (f v : String) (resp : ApiKeyLookupResponse) (s : r.Store)
      → lookup f (metadata_of r resp) ≡ some v
      → meta f (cached resp s) ≡ some v
  meta-cached f v resp s e =
      let m = api_key_meta_key k in
      rw (laws.hget-expire m m f 300 (r.hset m (metadata_of r resp) s))
        (rw (laws.hget-hset m m f (metadata_of r resp) s) (rw (eq_refl m) (rw e refl)))

  used-cached : (resp : ApiKeyLookupResponse) (s : r.Store) → used (cached resp s) ≡ used s
  used-cached resp s =
      let m = api_key_meta_key k in
      laws.counter-expire m (api_key_usage_key k w) 300 (r.hset m (metadata_of r resp) s)
      ∙ laws.counter-hset m (api_key_usage_key k w) (metadata_of r resp) s

  -- The cache behind the count, the lookup and the two commands that store its answer.
  abbrev refreshed : ApiKeyLookupResponse → Cache r → Cache r
  refreshed resp c = record { calls = suc (suc (suc (suc c.calls))); store = cached resp c.store }

  -- A miss in the cache comes down to the recursive call at the refreshed cache.
  key_context_refresh :
      (fuel : ℕ) (c : Cache r) (resp : ApiKeyLookupResponse)
      → meta "status" c.store ≡ none
      → rpc (suc c.calls) k ≡ answered resp
      → key_context r fault rpc window (suc fuel) k c
        ≡ (key_context r fault rpc window fuel k >> cached_context r fault rpc window k)
            (refreshed resp c)
  unfolding key_context check_and_increment rate_limit_script cache_metadata look_up_api_key
  key_context_refresh fuel c resp hs hr = ground (
    arith,
    one_window c.calls,
    no_fault c.calls,
    no_fault (suc (suc c.calls)),
    no_fault (suc (suc (suc c.calls))),
  )

  -- With no failing call, a request whose metadata have lapsed is answered from the auth service: it
  -- is counted once, and it is let through exactly if the new count does not pass the limit in the
  -- answer, with the answer's developer and plan. Two calls deep is enough.
  pub key_context_miss :
      (fuel : ℕ) (c : Cache r) (resp : ApiKeyLookupResponse)
      → meta "status" c.store ≡ none
      → rpc (suc c.calls) k ≡ answered resp
      → (resp.status == "revoked") ≡ false
      → let (res, c') = key_context r fault rpc window (suc (suc fuel)) k c in
        (res
          ≡ limited resp.requests_per_hour
              (suc (used c.store))
              (some resp.developer_id, some resp.plan))
        × (used c'.store ≡ suc (used c.store))
  unfolding metadata_of get_cache_data
  key_context_miss fuel c resp hs hr live =
      let c2 = refreshed resp c in
      let hit =
        key_context_cached fuel c2 resp.requests_per_hour resp.status
          (meta-cached "status" resp.status resp c.store refl) live
          (meta-cached "requests_per_hour" (r.show resp.requests_per_hour) resp c.store refl) in
      let s3 = (key_context r fault rpc window (suc fuel) k c2).1.store in
      rw (key_context_refresh (suc fuel) c resp hs hr) (
        ground (
          arith,
          hit.0,
          hit.1,
          hit.2 "developer_id",
          hit.2 "plan",
          meta-cached "developer_id" resp.developer_id resp c.store refl,
          meta-cached "plan" resp.plan resp c.store refl,
          used-cached resp c.store,
          laws.hgetall_lem (api_key_meta_key k) "developer_id" s3,
          laws.hgetall_lem (api_key_meta_key k) "plan" s3,
          no_fault (key_context r fault rpc window (suc fuel) k c2).1.calls,
        ))
