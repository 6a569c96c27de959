-- ===== src/Gateway/RateLimit/Store.antt =====
-- What the rate limit script does to the counter and the cached limit of one key.
use filo_j.Prelude.{
  ℕ, suc, ◌≤◌, ◌<◌, String, ◌≡◌, ◌⊎◌, inl, inr, refl, ap, sym, ◌∙◌, subst, eq_refl, Bool, true,
  false, none, some, ok, arith, nat_eq, if◌then◌else◌, ◌==◌, eq_iff, Bool-cases,
}
use filo_j.Shared.Redis.{Redis, IsRedis}
use filo_j.Shared.Redis.Keys.{
  api_key_meta_key, api_key_usage_key, api_key_meta_key-injective, meta-==-usage,
}
use filo_j.Gateway.ApiKeyRepo.{allowed, count_request, rate_limit_script}
use filo_j.Gateway.AuthClient.{ApiKeyLookupResponse}
use filo_j.Gateway.Handlers.{metadata_of}

module _ (r : Redis) (laws : IsRedis r) (key w : String) (limit : ℕ) where
  abbrev pub cnt : r.Store → ℕ
  cnt s = r.counter (api_key_usage_key key w) s

  -- What is cached of the key's limit is the limit.
  abbrev pub HasLimit : r.Store → Type 0
  HasLimit s =
      (r.hget (api_key_meta_key key) "requests_per_hour" s ≡ none)
      ⊎ (r.hget (api_key_meta_key key) "requests_per_hour" s ≡ some (r.show limit))

  pub hset-HasLimit :
      (k : String) (resp : ApiKeyLookupResponse) (s : r.Store)
      → (k ≡ key → resp.requests_per_hour ≡ limit)
      → HasLimit s
      → HasLimit (r.hset (api_key_meta_key k) (metadata_of r resp) s)
  unfolding metadata_of
  hset-HasLimit k resp s same h =
      rw (laws.hget-hset (api_key_meta_key k) (api_key_meta_key key) "requests_per_hour" _ s)
        (elim (Bool-cases (api_key_meta_key k == api_key_meta_key key)) [
          | inl e ↦ rw e (
              inr (
                ap (λ n. some (r.show n))
                  (same (api_key_meta_key-injective k key ((eq_iff _ _).0 e)))))
          | inr e ↦ rw e h
        ])

  pub evict-HasLimit :
      (k : String) (s : r.Store) → HasLimit s → HasLimit (r.evict (api_key_meta_key k) s)
  evict-HasLimit k s h =
      rw (laws.hget-evict (api_key_meta_key k) (api_key_meta_key key) "requests_per_hour" s)
        (ground arith)

  pub cnt-evict : (k : String) (s : r.Store) → cnt (r.evict (api_key_meta_key k) s) ≡ cnt s
  cnt-evict k s =
      rw (laws.counter-evict (api_key_meta_key k) (api_key_usage_key key w) s)
        (rw (meta-==-usage k key w) refl)

  -- The store behind the script's `INCR` and `EXPIRE`.
  abbrev pub counted : String → ℕ → Bool → r.Store → r.Store
  counted k ttl first s =
      let s1 = r.incr (api_key_usage_key k w) s in
      if first then r.expire (api_key_usage_key k w) ttl s1 else s1

  pub hget-counted :
      (k : String) (ttl : ℕ) (first : Bool) (j f : String) (s : r.Store)
      → r.hget j f (counted k ttl first s) ≡ r.hget j f s
  hget-counted k ttl true j f s =
      laws.hget-expire (api_key_usage_key k w) j f ttl _
      ∙ laws.hget-incr (api_key_usage_key k w) j f s
  hget-counted k ttl false j f s = laws.hget-incr (api_key_usage_key k w) j f s

  pub cnt-counted :
      (k : String) (ttl : ℕ) (first : Bool) (s : r.Store)
      → cnt (counted k ttl first s)
        ≡ r.counter (api_key_usage_key key w) (r.incr (api_key_usage_key k w) s)
  cnt-counted k ttl true s =
      laws.counter-expire (api_key_usage_key k w) (api_key_usage_key key w) ttl _
  cnt-counted k ttl false s = refl

  pub cnt-incr :
      (k : String) (s : r.Store)
      → cnt s ≤ r.counter (api_key_usage_key key w) (r.incr (api_key_usage_key k w) s)
  cnt-incr k s =
      rw (laws.counter-incr (api_key_usage_key k w) (api_key_usage_key key w) s) (ground arith)

  pub cnt-incr_self :
      (s : r.Store)
      → r.counter (api_key_usage_key key w) (r.incr (api_key_usage_key key w) s) ≡ suc (cnt s)
  cnt-incr_self s =
      rw (laws.counter-incr (api_key_usage_key key w) (api_key_usage_key key w) s)
        (rw (eq_refl (api_key_usage_key key w)) refl)

  -- What the cache goes through in a call for the key `k`: the limit stays, the counter does not fall.
  abbrev pub Keeps : r.Store → r.Store → Type 0
  Keeps s s' = HasLimit s → HasLimit s' × (cnt s ≤ cnt s')

  pub counted-Keeps :
      (k : String) (ttl : ℕ) (first : Bool) (s : r.Store) → Keeps s (counted k ttl first s)
  counted-Keeps k ttl first s h = (
    rw (hget-counted k ttl first (api_key_meta_key key) "requests_per_hour" s) h,
    rw (cnt-counted k ttl first s) (cnt-incr k s),
  )

  pub script-Keeps :
      (k : String) (ttl : ℕ) (s : r.Store)
      → Keeps s (rate_limit_script r (api_key_meta_key k) (api_key_usage_key k w) ttl s).1
  unfolding rate_limit_script count_request
  script-Keeps k ttl s h = ground (
    arith,
    counted-Keeps k ttl
        (nat_eq (r.counter (api_key_usage_key k w) (r.incr (api_key_usage_key k w) s)) 1) s h,
  )

  pub script-allowed :
      (ttl : ℕ) (s : r.Store) {n : ℕ}
      → HasLimit s
      → (rate_limit_script r (api_key_meta_key key) (api_key_usage_key key w) ttl s).0
        ≡ ok (allowed, n)
      → let s' = (rate_limit_script r (api_key_meta_key key) (api_key_usage_key key w) ttl s).1 in
        (cnt s < cnt s') × (cnt s' ≤ limit)
  unfolding rate_limit_script count_request
  script-allowed ttl s h e = ground (
    arith,
    cnt-incr_self s,
    cnt-counted key ttl
        (nat_eq (r.counter (api_key_usage_key key w) (r.incr (api_key_usage_key key w) s)) 1) s,
    laws.tonumber-show limit,
  )

  pub script-allowed_of :
      (k : String) (ttl : ℕ) (s : r.Store) {n : ℕ}
      → HasLimit s
      → (rate_limit_script r (api_key_meta_key k) (api_key_usage_key k w) ttl s).0 ≡ ok (allowed, n)
      → k ≡ key
      → let s' = (rate_limit_script r (api_key_meta_key k) (api_key_usage_key k w) ttl s).1 in
        (cnt s < cnt s') × (cnt s' ≤ limit)
  script-allowed_of k ttl s {n} h e same =
      subst
        (λ j.
          (rate_limit_script r (api_key_meta_key j) (api_key_usage_key j w) ttl s).0
            ≡ ok (allowed, n)
          → let s' = (rate_limit_script r (api_key_meta_key j) (api_key_usage_key j w) ttl s).1 in
            (cnt s < cnt s') × (cnt s' ≤ limit))
        (sym same) (script-allowed ttl s h) e
