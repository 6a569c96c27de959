-- ===== src/Gateway/RateLimit.antt =====
-- The rate limit of an API key over any run of requests in one hourly window.
pub mod Store
pub mod Call
use filo_j.Prelude.{
  ℕ, zero, suc, ◌+◌, ◌-◌, ◌≤◌, ◌<◌, String, ◌≡◌, ◌⊎◌, inl, inr, refl, ap, sym, ◌∙◌, subst, eq_refl,
  Bool, true, false, Option, none, some, List, [], ◌∷◌, Result, ok, err, arith, ltb, nat_eq,
  if◌then◌else◌, ◌==◌, ◌>>◌, ◌>>=◌, eq_iff, Bool-cases, lookup,
}
use filo_j.Shared.Errors.{Exn}
use filo_j.Shared.Redis.{Redis, IsRedis, or_old}
use filo_j.Shared.Redis.Keys.{
  api_key_meta_key, api_key_usage_key, api_key_meta_key-injective, meta-==-usage,
}
use filo_j.Shared.World.{Faults}
use filo_j.Gateway.Security.{Request, Libraries, extract_bearer_headers, hash_key}
use filo_j.Gateway.ApiKeyRepo.{
  Cache, Code, miss, revoked, exceeded, allowed, limit_of, compare_limit, count_request,
  rate_limit_script, check_and_increment, cache_metadata, get_cache_data,
}
use filo_j.Gateway.AuthClient.{
  ApiKeyLookupResponse, Reply, answered, look_up_api_key, aborted, broken,
}
use filo_j.Gateway.Handlers.{
  Context, metadata_of, AuthRpc, ask_auth_service, cached_context, by_code, key_context,
  file_context,
}
use filo_j.Gateway.RateLimit.Store.{cnt, HasLimit, evict-HasLimit, cnt-evict}
use filo_j.Gateway.RateLimit.Call.{Fair, key_context-Fair}

-- A request, or the moment at which the cached metadata of a key lapse.
pub data Event : Type 0 where
  request : Request → Event
  lapse : String → Event

module _ (lib : Libraries) (r : Redis) (fault : Faults) (rpc : AuthRpc) (window : ℕ → String)
    (fuel : ℕ) (key : String) where
  -- Was the request one of the key at hand?
  abbrev is_of_key : Request → Bool
  is_of_key req = elim (extract_bearer_headers lib req) [
    | err e ↦ false
    | ok t ↦ hash_key lib t == key
  ]

  abbrev count_ok : Bool → Result Exn Context → ℕ → ℕ
  count_ok true (ok ctx) n = suc n
  count_ok true (err e) n = n
  count_ok false res n = n

  -- How many requests of the key are let through, and the cache behind the last event.
  unfoldable pub run : List Event → Cache r → ℕ → ℕ × Cache r
  run [] c n = (n, c)
  run (request req ∷ es) c n =
      let (res, c') = file_context lib r fault rpc window fuel req c in
      run es c' (count_ok (is_of_key req) res n)
  run (lapse k ∷ es) c n = run es (record c { store = r.evict (api_key_meta_key k) c.store }) n

module _ (r : Redis) (laws : IsRedis r) (key w : String) (limit : ℕ) where
  module _ (fault : Faults) (rpc : AuthRpc) (window : ℕ → String)
      (one_window : (n : ℕ) → window n ≡ w)
      (same_limit : (n : ℕ) (resp : ApiKeyLookupResponse)
        → rpc n key ≡ answered resp
        → resp.requests_per_hour ≡ limit) where
    module _ (lib : Libraries) (fuel : ℕ) where
      -- Where a run stands that has let `n` requests through since the counter stood at `base`.
      record IsCounted (base n : ℕ) (s : r.Store) : Type 0 where
        has_limit : HasLimit r laws key w limit s
        grown : base ≤ cnt r laws key w limit s
        counted_all : n ≤ cnt r laws key w limit s - base
        below_limit : n ≤ limit - base

      request-IsCounted :
          (k : String) (base n : ℕ) (mine : Bool) (res : Result Exn Context) (c c' : Cache r)
          → (mine ≡ true → k ≡ key)
          → IsCounted base n c.store
          → Fair r laws key w limit k (cnt r laws key w limit c.store) (res, c')
          → IsCounted base (count_ok lib r fault rpc window fuel key mine res n) c'.store
      request-IsCounted k base n true (ok ctx) c c' same i fair =
          let more = fair.2 (same refl) in
          record {
            has_limit = fair.0;
            grown = omega arith;
            counted_all = omega arith;
            below_limit = omega arith;
          }
      request-IsCounted k base n true (err e) c c' same i fair = record {
        has_limit = fair.0;
        grown = omega arith;
        counted_all = omega arith;
        below_limit = i.below_limit;
      }
      request-IsCounted k base n false (ok ctx) c c' same i fair = record {
        has_limit = fair.0;
        grown = omega arith;
        counted_all = omega arith;
        below_limit = i.below_limit;
      }
      request-IsCounted k base n false (err e) c c' same i fair = record {
        has_limit = fair.0;
        grown = omega arith;
        counted_all = omega arith;
        below_limit = i.below_limit;
      }

      step-IsCounted :
          (req : Request) (base n : ℕ) (c : Cache r)
          → IsCounted base n c.store
          → let (res, c') = file_context lib r fault rpc window fuel req c in
            IsCounted base
              (count_ok lib r fault rpc window fuel key
                (is_of_key lib r fault rpc window fuel key req)
                res
                n)
              c'.store
      unfolding file_context
      step-IsCounted req base n c i = extracted (extract_bearer_headers lib req)
        where
          extracted :
              (token : Result Exn String)
              → let (res, c') =
                  ((λ (c0 : Cache r). (token, c0)) >>= λ t.
                  key_context r fault rpc window fuel (hash_key lib t))
                    c in
                IsCounted base
                  (count_ok lib r fault rpc window fuel key
                    (elim token [ err e ↦ false | ok t ↦ hash_key lib t == key ])
                    res
                    n)
                  c'.store
          extracted (err e) = i
          extracted (ok t) =
              let k = hash_key lib t in
              let out = key_context r fault rpc window fuel k c in
              request-IsCounted k base n (k == key) out.0 c out.1 (λ e. (eq_iff k key).0 e) i
                (key_context-Fair r laws key w limit fault rpc window one_window same_limit fuel k c
                  i.has_limit)

      run-IsCounted :
          (es : List Event) (base n : ℕ) (c : Cache r)
          → IsCounted base n c.store
          → (run lib r fault rpc window fuel key es c n).0 ≤ limit - base
      unfolding run
      run-IsCounted [] base n c i = i.below_limit
      run-IsCounted (request req ∷ es) base n c i =
          let out = file_context lib r fault rpc window fuel req c in
          run-IsCounted es base
            (count_ok lib r fault rpc window fuel key
              (is_of_key lib r fault rpc window fuel key req) out.0 n)
            out.1 (step-IsCounted req base n c i)
      run-IsCounted (lapse k ∷ es) base n c i =
          run-IsCounted es base n (record c { store = r.evict (api_key_meta_key k) c.store })
            (record {
              has_limit = evict-HasLimit r laws key w limit k c.store i.has_limit;
              grown = rw (cnt-evict r laws key w limit k c.store) i.grown;
              counted_all = rw (cnt-evict r laws key w limit k c.store) i.counted_all;
              below_limit = i.below_limit;
            })

      -- In one hourly window, whatever requests come, of this key and of others, whatever metadata
      -- lapse in between and whichever external calls fail: of the requests of the key no more are let
      -- through than its limit allows beyond what the counter had reached at the start. It is assumed
      -- that Redis behaves as documented, that the auth service gives the key one limit, and that the
      -- cache holds this limit or none.
      pub run-le-limit :
          (es : List Event) (c : Cache r)
          → HasLimit r laws key w limit c.store
          → (run lib r fault rpc window fuel key es c 0).0 ≤ limit - cnt r laws key w limit c.store
      run-le-limit es c h = run-IsCounted es (cnt r laws key w limit c.store) 0 c (record {
        has_limit = h;
        grown = omega arith;
        counted_all = omega arith;
        below_limit = omega arith;
      })
