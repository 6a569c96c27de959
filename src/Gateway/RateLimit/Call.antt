-- ===== src/Gateway/RateLimit/Call.antt =====
-- What a call of `FileServiceHandler.get_context` does to the counter of one key.
use filo_j.Prelude.{
  ℕ, zero, suc, ◌≤◌, ◌<◌, String, ◌≡◌, refl, ap, subst, Result, ok, err, arith, ◌>>◌, ◌>>=◌,
}
use filo_j.Shared.Errors.{Exn}
use filo_j.Shared.Redis.{Redis, IsRedis}
use filo_j.Shared.Redis.Keys.{api_key_meta_key, api_key_usage_key}
use filo_j.Shared.World.{Faults}
use filo_j.Gateway.ApiKeyRepo.{
  Cache, Code, miss, revoked, exceeded, allowed, check_and_increment, cache_metadata,
  get_cache_data,
}
use filo_j.Gateway.AuthClient.{ApiKeyLookupResponse, Reply, answered, look_up_api_key}
use filo_j.Gateway.Handlers.{Context, metadata_of, AuthRpc, cached_context, by_code, key_context}
use filo_j.Gateway.RateLimit.Store.{
  cnt, HasLimit, hset-HasLimit, Keeps, script-Keeps, script-allowed_of,
}

module _ (r : Redis) (laws : IsRedis r) (key w : String) (limit : ℕ) where
  -- What a call for the key `k`, begun when the counter stood at `n`, has done by the way it ended.
  abbrev pub Fair : String → ℕ → Result Exn Context × Cache r → Type 0
  Fair k n (ok ctx, c) =
      HasLimit r laws key w limit c.store
      × (n ≤ cnt r laws key w limit c.store)
      × (k ≡ key → (n < cnt r laws key w limit c.store) × (cnt r laws key w limit c.store ≤ limit))
  Fair k n (err e, c) = HasLimit r laws key w limit c.store × (n ≤ cnt r laws key w limit c.store)

  module _ (fault : Faults) (rpc : AuthRpc) (window : ℕ → String)
      (one_window : (n : ℕ) → window n ≡ w)
      (same_limit : (n : ℕ) (resp : ApiKeyLookupResponse)
        → rpc n key ≡ answered resp
        → resp.requests_per_hour ≡ limit) where
    look_up-answered :
        (reply : Reply ApiKeyLookupResponse) (resp : ApiKeyLookupResponse)
        → look_up_api_key reply ≡ ok resp
        → reply ≡ answered resp
    unfolding look_up_api_key
    look_up-answered reply resp e = ground arith

    answered-limit :
        (n : ℕ) (k : String) (resp : ApiKeyLookupResponse)
        → look_up_api_key (rpc n k) ≡ ok resp
        → k ≡ key
        → resp.requests_per_hour ≡ limit
    answered-limit n k resp e same =
        same_limit n resp
          (subst (λ j. rpc n j ≡ answered resp) same (look_up-answered (rpc n k) resp e))

    cache_metadata-Keeps :
        (k : String) (resp : ApiKeyLookupResponse) (c : Cache r)
        → (k ≡ key → resp.requests_per_hour ≡ limit)
        → Keeps r laws key w limit c.store
            (cache_metadata r fault k (metadata_of r resp) 300 c).1.store
    unfolding cache_metadata
    cache_metadata-Keeps k resp c same h =
        let m = api_key_meta_key k in
        let s1 = r.hset m (metadata_of r resp) c.store in
        ground (
          arith,
          hset-HasLimit r laws key w limit k resp c.store same h,
          laws.counter-hset m (api_key_usage_key key w) (metadata_of r resp) c.store,
          laws.hget-expire m (api_key_meta_key key) "requests_per_hour" 300 s1,
          laws.counter-expire m (api_key_usage_key key w) 300 s1,
        )

    get_cache_data-store :
        (k : String) (c : Cache r) → (get_cache_data r fault k c).1.store ≡ c.store
    unfolding get_cache_data
    get_cache_data-store k c = ground arith

    cached_context-Fair :
        (k : String) (n : ℕ) (c : Cache r)
        → HasLimit r laws key w limit c.store
        → n ≤ cnt r laws key w limit c.store
        → (k ≡ key
            → (n < cnt r laws key w limit c.store) × (cnt r laws key w limit c.store ≤ limit))
        → Fair k n (cached_context r fault rpc window k c)
    cached_context-Fair k n c h grown admitted = ground (arith, get_cache_data-store k c)

    -- The recursive call behind a miss came to `res`.
    retry-Fair :
        (k : String) (n m : ℕ) (c : Cache r) (res : Result Exn Context × Cache r)
        → Fair k m res
        → n ≤ m
        → Fair k n (((λ (_ : Cache r). res) >> cached_context r fault rpc window k) c)
    retry-Fair k n m c (ok ctx, c') fair le =
        cached_context-Fair k n c' fair.0 (omega arith) (λ same. omega (arith, fair.2 same))
    retry-Fair k n m c (err e, c') fair le = (fair.0, omega arith)

    -- A miss: the metadata were stored, with what `stored` came to, before the recursive call.
    stored-Fair :
        (again : Cache r → Result Exn Context × Cache r) (k : String) (n : ℕ) (c : Cache r)
        (stored : Result Exn (Unit {0}) × Cache r)
        → ((c' : Cache r)
            → HasLimit r laws key w limit c'.store
            → Fair k (cnt r laws key w limit c'.store) (again c'))
        → HasLimit r laws key w limit stored.1.store
        → n ≤ cnt r laws key w limit stored.1.store
        → Fair k n (((λ (_ : Cache r). stored) >> (again >> cached_context r fault rpc window k)) c)
    stored-Fair again k n c (ok _, c') again_Fair h le =
        retry-Fair k n (cnt r laws key w limit c'.store) c' (again c') (again_Fair c' h) le
    stored-Fair again k n c (err e, c') again_Fair h le = (h, le)

    by_code-Fair :
        (again : Cache r → Result Exn Context × Cache r) (k : String) (n : ℕ) (code : Code)
        (c : Cache r)
        → ((c' : Cache r)
            → HasLimit r laws key w limit c'.store
            → Fair k (cnt r laws key w limit c'.store) (again c'))
        → HasLimit r laws key w limit c.store
        → n ≤ cnt r laws key w limit c.store
        → (code ≡ allowed
            → k ≡ key
            → (n < cnt r laws key w limit c.store) × (cnt r laws key w limit c.store ≤ limit))
        → Fair k n (by_code r fault rpc window again k code c)
    by_code-Fair again k n allowed c again_Fair h le admitted =
        cached_context-Fair k n c h le (admitted refl)
    by_code-Fair again k n revoked c again_Fair h le admitted = (h, le)
    by_code-Fair again k n exceeded c again_Fair h le admitted = (h, le)
    by_code-Fair again k n miss c again_Fair h le admitted =
        answer (look_up_api_key (rpc c.calls k)) (λ resp e. answered-limit c.calls k resp e)
      where
        answer :
            (reply : Result Exn ApiKeyLookupResponse)
            → ((resp : ApiKeyLookupResponse)
                → reply ≡ ok resp
                → k ≡ key
                → resp.requests_per_hour ≡ limit)
            → Fair k n (
                ((λ (_ : Cache r). (reply, record c { calls = suc c.calls })) >>= λ resp.
                cache_metadata r fault k (metadata_of r resp) 300
                >> (again >> cached_context r fault rpc window k))
                  c)
        answer (err e) same = (h, le)
        answer (ok resp) same =
            let c1 : Cache r = record c { calls = suc c.calls } in
            let stored = cache_metadata r fault k (metadata_of r resp) 300 c1 in
            let kept = cache_metadata-Keeps k resp c1 (same resp refl) h in
            stored-Fair again k n c1 stored again_Fair kept.0 (omega arith)

    check-Keeps :
        (k : String) (c : Cache r)
        → Keeps r laws key w limit c.store (check_and_increment r fault w k 3700 c).1.store
    unfolding check_and_increment
    check-Keeps k c h = ground (arith, script-Keeps r laws key w limit k 3700 c.store h)

    check-allowed :
        (k : String) (c : Cache r) {n : ℕ}
        → HasLimit r laws key w limit c.store
        → (check_and_increment r fault w k 3700 c).0 ≡ ok (allowed, n)
        → k ≡ key
        → let s' = (check_and_increment r fault w k 3700 c).1.store in
          (cnt r laws key w limit c.store < cnt r laws key w limit s')
          × (cnt r laws key w limit s' ≤ limit)
    unfolding check_and_increment
    check-allowed k c {n} h e same =
        ground (arith, script-allowed_of r laws key w limit k 3700 c.store {n = n} h)

    checked-Fair :
        (again : Cache r → Result Exn Context × Cache r) (k : String) (n : ℕ) (c : Cache r)
        (res : Result Exn (Code × ℕ)) (c1 : Cache r)
        → ((c' : Cache r)
            → HasLimit r laws key w limit c'.store
            → Fair k (cnt r laws key w limit c'.store) (again c'))
        → HasLimit r laws key w limit c1.store
        → n ≤ cnt r laws key w limit c1.store
        → ((m : ℕ)
            → res ≡ ok (allowed, m)
            → k ≡ key
            → (n < cnt r laws key w limit c1.store) × (cnt r laws key w limit c1.store ≤ limit))
        → Fair k n (
            ((λ (_ : Cache r). (res, c1)) >>= λ (code, count).
            by_code r fault rpc window again k code)
              c)
    checked-Fair again k n c (err e) c1 again_Fair h le admitted = (h, le)
    checked-Fair again k n c (ok (code, m)) c1 again_Fair h le admitted =
        by_code-Fair again k n code c1 again_Fair h le (λ e. admitted m (ap (λ x. ok (x, m)) e))

    -- A call for any key keeps the cached limit and does not lower the counter; a call for the key at
    -- hand that is let through raises the counter, and not above the limit.
    pub key_context-Fair :
        (fuel : ℕ) (k : String) (c : Cache r)
        → HasLimit r laws key w limit c.store
        → Fair k (cnt r laws key w limit c.store) (key_context r fault rpc window fuel k c)
    unfolding key_context
    key_context-Fair zero k c h = (h, omega arith)
    key_context-Fair (suc fuel) k c h = rw (one_window c.calls) (
        let kept = check-Keeps k c h in
        checked-Fair (key_context r fault rpc window fuel k) k (cnt r laws key w limit c.store) c
          (check_and_increment r fault w k 3700 c).0 (check_and_increment r fault w k 3700 c).1
          (λ c' h'. key_context-Fair fuel k c' h') kept.0 kept.1
          (λ m e same. check-allowed k c {n = m} h e same))
