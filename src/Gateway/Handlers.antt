-- ===== src/Gateway/Handlers.antt =====
-- gateway/handlers: who calls, by the service that is called.
use filo_j.Prelude.{
  ℕ, zero, suc, String, Bool, true, Option, none, some, List, [], ◌∷◌, lookup, elem, Result, ok,
  err, Exec, lift, gets, pure, raise, ◌>>=◌, ◌>>◌,
}
use filo_j.Shared.Errors.{Exn, exn, http_exception, runtime_error}
use filo_j.Shared.Redis.{Redis}
use filo_j.Shared.World.{Faults}
use filo_j.Gateway.Config.{Settings}
use filo_j.Gateway.Security.{Request, Libraries, extract_bearer_headers, decode_token, hash_key}
use filo_j.Gateway.ApiKeyRepo.{
  Cache, Code, miss, revoked, exceeded, allowed, check_and_increment, cache_metadata,
  get_cache_data,
}
use filo_j.Gateway.AuthClient.{ApiKeyLookupResponse, Reply, look_up_api_key}

-- `tuple[str, str]`: the developer and the plan.
abbrev pub Context : Type 0
Context = Option String × Option String

-- `SERVICE_HANDLERS`: the classes of the handlers.
pub data ServiceHandler : Type 0 where
  auth_service_handler file_service_handler : ServiceHandler

unfoldable pub should_handle : ServiceHandler → String → Bool
should_handle auth_service_handler path = elem path ("api/key" ∷ "api/webhook" ∷ [])
should_handle file_service_handler path = true

abbrev or_empty : Option String → Option String
or_empty none = some ""
or_empty (some v) = some v

module _ (lib : Libraries) (settings : Settings) where
  unfoldable pub token_context : Result Exn String → Result Exn Context
  token_context (err e) = err e
  token_context (ok bearer_token) =
      elim (decode_token lib settings.jwt_secret settings.jwt_algorithm bearer_token) [
        | err e ↦ err e
        | ok token ↦ ok (or_empty (lookup "sub" token), or_empty (lookup "plan" token))
      ]

  -- `AuthServiceHandler.get_context`
  unfoldable pub auth_context : Request → Result Exn Context
  auth_context request = token_context (extract_bearer_headers lib request)

-- What is stored of the auth service's answer.
unfoldable pub metadata_of : (r : Redis) → ApiKeyLookupResponse → List (String × String)
metadata_of r response =
    ("status", response.status)
    ∷ ("developer_id", response.developer_id)
    ∷ ("api_key_id", response.api_key_id)
    ∷ ("plan", response.plan)
    ∷ ("requests_per_hour", r.show response.requests_per_hour)
    ∷ ("max_file_size_bytes", r.show response.max_file_size_bytes)
    ∷ ("storage_quota_bytes", r.show response.storage_quota_bytes)
    ∷ []

-- `rpc n key_hash` is what the n-th external call, a lookup of this key, comes to.
abbrev pub AuthRpc : Type 0
AuthRpc = ℕ → String → Reply ApiKeyLookupResponse

module _ (r : Redis) (fault : Faults) (rpc : AuthRpc) (window : ℕ → String) where
  abbrev pub ask_auth_service : String → Exec (Cache r) Exn ApiKeyLookupResponse
  ask_auth_service key_hash c =
      (look_up_api_key (rpc c.calls key_hash), record c { calls = suc c.calls })

  -- The body of `FileServiceHandler.get_context` behind the count, by the code that came back;
  -- `again` is the recursive call, whose result the code drops.
  abbrev pub cached_context : String → Exec (Cache r) Exn Context
  cached_context key_hash = do
    cache_data ← get_cache_data r fault key_hash
    pure (lookup "developer_id" cache_data, lookup "plan" cache_data)

  abbrev pub by_code : Exec (Cache r) Exn Context → String → Code → Exec (Cache r) Exn Context
  by_code again key_hash miss = do
    response ← ask_auth_service key_hash
    cache_metadata r fault key_hash (metadata_of r response) 300
    again
    cached_context key_hash
  by_code again key_hash revoked = raise (exn (http_exception 401) "Api key inactive/revoked")
  by_code again key_hash exceeded = raise (exn (http_exception 429) "You have hit your plan limits")
  by_code again key_hash allowed = cached_context key_hash

  -- What follows once the key is known. `window n` is `current_window()` when n calls were made. Python's own limit on the depth of calls is the fuel: without
  -- fuel the call raises `RecursionError`, which is a `RuntimeError`.
  unfoldable pub key_context : ℕ → String → Exec (Cache r) Exn Context
  key_context zero key_hash = raise (exn runtime_error "maximum recursion depth exceeded")
  key_context (suc fuel) key_hash =
      let again = key_context fuel key_hash in
      do
        now ← gets (λ c. c.calls)
        (code, count) ← check_and_increment r fault (window now) key_hash 3700
        by_code again key_hash code

module _ (lib : Libraries) (r : Redis) (fault : Faults) (rpc : AuthRpc) (window : ℕ → String) where
  -- `FileServiceHandler.get_context`
  unfoldable pub file_context : ℕ → Request → Exec (Cache r) Exn Context
  file_context fuel request = do
    api_key ← lift (extract_bearer_headers lib request)
    key_context r fault rpc window fuel (hash_key lib api_key)
