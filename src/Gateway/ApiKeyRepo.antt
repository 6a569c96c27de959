-- ===== src/Gateway/ApiKeyRepo.antt =====
-- gateway/cache/api_key_repo.py: the script that counts the requests of an API key in Redis, and
-- `ApiKeyRepo`. A command may raise, by the number of the external call.
use filo_j.Prelude.{
  ℕ, suc, String, Option, none, some, List, Result, ok, err, Exec, ltb, nat_eq, if◌then◌else◌, ◌==◌,
  ◌>>◌,
}
use filo_j.Shared.Errors.{Exn, exn, other_error}
use filo_j.Shared.Redis.{Redis}
use filo_j.Shared.Redis.Keys.{api_key_meta_key, api_key_usage_key}
use filo_j.Shared.World.{Faults}

pub record Cache (r : Redis) : Type 0 where
  pub calls : ℕ
  pub store : r.Store

-- The codes that the script returns: -2, -1, 0 and 1.
pub data Code : Type 0 where
  miss revoked exceeded allowed : Code

module _ (r : Redis) where
  abbrev pub limit_of : Option String → Option ℕ
  limit_of none = none
  limit_of (some t) = r.tonumber t

  -- The comparison of the counter with the limit; a limit that is no number is an error of Lua.
  abbrev pub compare_limit : Option ℕ → ℕ → Result Exn (Code × ℕ)
  compare_limit none count = err (exn other_error "attempt to compare nil with number")
  compare_limit (some limit) count =
      if ltb limit count then ok (exceeded, count) else ok (allowed, count)

  -- `RATE_LIMIT_SCRIPT` behind its two early returns
  unfoldable pub count_request : String → String → ℕ → r.Store → Result Exn (Code × ℕ) × r.Store
  count_request meta usage ttl s =
      let s1 = r.incr usage s in
      let count = r.counter usage s1 in
      let s2 = if nat_eq count 1 then r.expire usage ttl s1 else s1 in
      (compare_limit (limit_of (r.hget meta "requests_per_hour" s)) count, s2)

  -- `RATE_LIMIT_SCRIPT`
  unfoldable pub rate_limit_script : String → String → ℕ → r.Store → Result Exn (Code × ℕ) × r.Store
  rate_limit_script meta usage ttl s = elim (r.hget meta "status" s) [
    | none ↦ (ok (miss, 0), s)
    | some status ↦
        if status == "revoked" then (ok (revoked, 0), s) else count_request meta usage ttl s
  ]

module _ (r : Redis) (fault : Faults) where
  -- A command or a script, which raises and does nothing if the call fails.
  abbrev pub redis_call : {A : Type 0} → (r.Store → Result Exn A × r.Store) → Exec (Cache r) Exn A
  redis_call f c = elim (fault c.calls) [
    | some e ↦ (err e, record c { calls = suc c.calls })
    | none ↦ let (a, s) = f c.store in (a, record { calls = suc c.calls; store = s })
  ]

  unfoldable pub check_and_increment : String → String → ℕ → Exec (Cache r) Exn (Code × ℕ)
  check_and_increment window api_key ttl =
      redis_call
        (rate_limit_script r (api_key_meta_key api_key) (api_key_usage_key api_key window) ttl)

  unfoldable pub cache_metadata :
      String → List (String × String) → ℕ → Exec (Cache r) Exn (Unit {0})
  cache_metadata api_key metadata ttl = do
    redis_call (λ s. (ok tt, r.hset (api_key_meta_key api_key) metadata s))
    redis_call (λ s. (ok tt, r.expire (api_key_meta_key api_key) ttl s))

  unfoldable pub get_cache_data : String → Exec (Cache r) Exn (List (String × String))
  get_cache_data api_key = redis_call (λ s. (ok (r.hgetall (api_key_meta_key api_key) s), s))
