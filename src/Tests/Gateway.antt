-- ===== src/Tests/Gateway.antt =====
-- Scenarios of the gateway: one API key, a small cache, and an auth service that knows the key.
use filo_j.Prelude.{
  All, ℕ, ◌≤◌, ◌-◌, String, ◌≡◌, refl, true, Option, none, some, List, [], ◌∷◌, lookup, inl, arith,
  eq_iff,
}
use Prim.Native.String.{◌++◌ as ◌++ₛ◌}
use filo_j.Shared.World.{Faults}
use filo_j.Shared.Redis.Keys.{api_key_meta_key, api_key_usage_key}
use filo_j.Shared.Redis.Memory.{memory, memory-IsRedis, empty_store}
use filo_j.Gateway.Config.{default_settings}
use filo_j.Gateway.Security.{Request, Libraries}
use filo_j.Gateway.ApiKeyRepo.{Cache}
use filo_j.Gateway.AuthClient.{ApiKeyLookupResponse, answered}
use filo_j.Gateway.Handlers.{AuthRpc, file_service_handler, should_handle, key_context}
use filo_j.Gateway.Proxy.{Outgoing, Sent, Response, to_client, gateway}
use filo_j.Gateway.Headers.{HeaderBuilder}
use filo_j.Gateway.RateLimit.{Event, request, lapse, run, run-le-limit}
use filo_j.Gateway.RateLimit.Store.{cnt}
use filo_j.Gateway.CacheLaws.{limited, key_context_cached, key_context_miss}
use filo_j.Gateway.ProxyLaws.{MayPass, to_client-MayPass, gateway_ignores_identity}

abbrev lib : Libraries
lib = record {
  lower = λ s. s;
  jwt_decode = λ token secret algorithm. none;
  sha256 = λ s. s;
  uuid4 = "u";
}

abbrev no_fault : Faults
no_fault n = none

abbrev response : ApiKeyLookupResponse
response = record {
  found = true;
  status = "active";
  developer_id = "42";
  api_key_id = "";
  plan = "free";
  requests_per_hour = 2;
  max_file_size_bytes = 3;
  storage_quota_bytes = 4;
}

abbrev rpc : AuthRpc
rpc n key = answered response

abbrev window : ℕ → String
window n = "2026-07-04T15"

abbrev empty_cache : Cache memory
empty_cache = record { calls = 0; store = empty_store }

abbrev cached : Cache memory
cached = record {
  calls = 0;
  store =
      memory.hset (api_key_meta_key "abc")
        (("status", "active")
          ∷ ("developer_id", "42")
          ∷ ("plan", "free")
          ∷ ("requests_per_hour", memory.show 2)
          ∷ [])
        empty_store;
}

abbrev headers : String → Option String
headers name = lookup name (("authorization", "bearer" ++ₛ (" " ++ₛ "abc")) ∷ [])

abbrev headers_with_identity : String → Option String
headers_with_identity name =
    lookup name
      (("x-developer-id", "someone else") ∷ ("authorization", "bearer" ++ₛ (" " ++ₛ "abc")) ∷ [])

abbrev upload : Request
upload = record { method = "POST"; headers = headers; query_params = [] }

abbrev uploads : List Event
uploads = request upload ∷ request upload ∷ lapse "abc" ∷ request upload ∷ []

run-le-limit_example :
    (run lib memory no_fault rpc window 5 "abc" uploads empty_cache 0).0
    ≤ 2 - cnt memory memory-IsRedis "abc" "2026-07-04T15" 2 empty_store
run-le-limit_example =
    run-le-limit memory memory-IsRedis "abc" "2026-07-04T15" 2 no_fault rpc window (λ n. refl)
      (λ n resp e. cc) lib 5 uploads empty_cache (inl refl)

key_context_cached_example :
    let (res, c') = key_context memory no_fault rpc window 1 "abc" cached in
    (res
      ≡ limited memory memory-IsRedis no_fault
          (λ n. refl)
          rpc
          window
          "2026-07-04T15"
          (λ n. refl)
          "abc"
          2
          1
          (some "42", some "free"))
    × (memory.counter (api_key_usage_key "abc" "2026-07-04T15") c'.store ≡ 1)
    × ((f : String)
        → memory.hget (api_key_meta_key "abc") f c'.store
          ≡ memory.hget (api_key_meta_key "abc") f cached.store)
unfolding api_key_meta_key api_key_usage_key
key_context_cached_example =
    key_context_cached memory memory-IsRedis no_fault (λ n. refl) rpc window "2026-07-04T15"
      (λ n. refl) "abc" 0 cached 2 "active" refl refl refl

key_context_miss_example :
    let (res, c') = key_context memory no_fault rpc window 2 "abc" empty_cache in
    (res
      ≡ limited memory memory-IsRedis no_fault
          (λ n. refl)
          rpc
          window
          "2026-07-04T15"
          (λ n. refl)
          "abc"
          2
          1
          (some "42", some "free"))
    × (memory.counter (api_key_usage_key "abc" "2026-07-04T15") c'.store ≡ 1)
key_context_miss_example =
    key_context_miss memory memory-IsRedis no_fault (λ n. refl) rpc window "2026-07-04T15"
      (λ n. refl) "abc" 0 empty_cache response refl refl refl

abbrev page : Response
page = record {
  status_code = 200;
  headers = ("content-type", "text/plain") ∷ ("server", "uvicorn") ∷ [];
  set_cookies = "refresh_token=x" ∷ [];
}

to_client-MayPass_example : All (MayPass (λ s. s)) (to_client (λ s. s) page).headers
to_client-MayPass_example = to_client-MayPass (λ s. s) page

abbrev send : Outgoing → Sent
send outgoing = Sent.answered page

gateway_ignores_identity_example :
    gateway lib
      (default_settings "s")
      memory
      no_fault
      rpc
      window
      5
      send
      "file"
      "upload"
      (record upload { headers = headers_with_identity })
      cached
    ≡ gateway lib
        (default_settings "s")
        memory
        no_fault
        rpc
        window
        5
        send
        "file"
        "upload"
        upload
        cached
unfolding should_handle
gateway_ignores_identity_example =
    gateway_ignores_identity lib (default_settings "s") memory no_fault rpc window 5 send "file"
      "upload" file_service_handler upload headers_with_identity cached refl refl
      (λ name a b. ground (arith, eq_iff "x-developer-id" name, eq_iff name "x-developer-id"))

abbrev builder : HeaderBuilder
builder = record {
  content_type = some "text/plain";
  accept = some "";
  developer_id = some "42";
  developer_plan = none;
  internal_secret = some "s";
  request_id = some "u";
  cookie = some "";
}
