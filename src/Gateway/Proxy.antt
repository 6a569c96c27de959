-- ===== src/Gateway/Proxy.antt =====
-- gateway/routers/proxy.py and the route of gateway/main.py. httpx is a parameter: what came of the
-- request that was built.
use Prim.Native.String.{◌++◌ as ◌++ₛ◌}
use filo_j.Prelude.{
  ℕ, String, Option, none, some, List, [], ◌∷◌, ◌++◌, map, lookup, elem, select, Result, ok, err,
  Exec, lift, pure, ◌>>=◌, if◌then◌else◌, ◌==◌,
}
use filo_j.Shared.Errors.{Exn, exn, http_exception}
use filo_j.Shared.Redis.{Redis}
use filo_j.Shared.World.{Faults}
use filo_j.Gateway.Config.{Settings, services, timeouts}
use filo_j.Gateway.Security.{Request, Libraries}
use filo_j.Gateway.Headers.{Headers, from_request, to_dict}
use filo_j.Gateway.ApiKeyRepo.{Cache}
use filo_j.Gateway.Handlers.{
  Context, ServiceHandler, auth_service_handler, file_service_handler, should_handle, auth_context,
  file_context, AuthRpc,
}

-- The request that `build_request` makes.
pub record Outgoing : Type 0 where
  pub method : String
  pub url : String
  pub headers : Headers
  pub params : List (String × String)
  pub timeout : ℕ

pub record Response : Type 0 where
  pub status_code : ℕ
  pub headers : List (String × String)
  pub set_cookies : List String

-- What `client.send` comes to: a response, `ConnectError`, `TimeoutException` or another exception.
pub data Sent : Type 0 where
  answered : Response → Sent
  connect_error timeout_exception failed : Sent

-- `SERVICE_HANDLERS`
abbrev pub service_handlers : List (String × ServiceHandler)
service_handlers = ("auth", auth_service_handler) ∷ ("file", file_service_handler) ∷ []

abbrev url_or_404 : Option String → Result Exn String
url_or_404 none = err (exn (http_exception 404) "Service not found")
url_or_404 (some url) =
    if url == "" then err (exn (http_exception 404) "Service not found") else ok url

unfoldable pub get_service_url : Settings → String → Result Exn String
get_service_url settings service = url_or_404 (lookup service (services settings))

abbrev or_number : Option ℕ → ℕ → ℕ
or_number none d = d
or_number (some n) d = n

unfoldable pub get_timeout : Settings → String → ℕ
get_timeout settings service =
    or_number (lookup service (timeouts settings)) settings.default_timeout

abbrev pub allowed_response_headers : List String
allowed_response_headers =
    "content-type" ∷ "content-disposition" ∷ "cache-control" ∷ "x-request-id" ∷ []

-- `_filter_response_headers`
unfoldable pub filter_response_headers :
    (String → String) → List (String × String) → List (String × String)
filter_response_headers lower headers =
    select (λ h. elem (lower h.0) allowed_response_headers) headers

-- The streaming response: the cookies are appended to the headers that pass the filter.
unfoldable pub to_client : (String → String) → Response → Response
unfolding filter_response_headers
to_client lower response = record response {
  headers =
      filter_response_headers lower response.headers
      ++ map (λ cookie. ("set-cookie", cookie)) response.set_cookies;
}

unfoldable pub translate : (String → String) → Sent → Result Exn Response
unfolding to_client
translate lower (answered response) = ok (to_client lower response)
translate lower connect_error = err (exn (http_exception 503) "Service unavailable")
translate lower timeout_exception = err (exn (http_exception 504) "Service timed out")
translate lower failed = err (exn (http_exception 502) "Bad gateway")

module _ (lib : Libraries) (settings : Settings) (r : Redis) (fault : Faults) (rpc : AuthRpc)
    (window : ℕ → String) (fuel : ℕ) where
  unfoldable pub get_context : ServiceHandler → Request → Exec (Cache r) Exn Context
  get_context auth_service_handler request = lift (auth_context lib settings request)
  get_context file_service_handler request = file_context lib r fault rpc window fuel request

  -- `if handler and handler.should_handle(path)`
  abbrev caller : Option ServiceHandler → String → Request → Context → Exec (Cache r) Exn Context
  caller none path request given = pure given
  caller (some handler) path request given =
      if should_handle handler path then get_context handler request else pure given

  -- `proxy_request` up to `client.send`
  unfoldable pub build_request : String → String → Request → Context → Exec (Cache r) Exn Outgoing
  build_request service path request given = do
    target ← lift (get_service_url settings service)
    (developer_id, plan) ← caller (lookup service service_handlers) path request given
    pure (record {
      method = request.method;
      url = target ++ₛ ("/" ++ₛ path);
      headers =
          to_dict
            (from_request settings.internal_gateway_secret lib.uuid4 request developer_id plan);
      params = request.query_params;
      timeout = get_timeout settings service;
    })

  unfoldable pub proxy_request :
      (Outgoing → Sent) → String → String → Request → Context → Exec (Cache r) Exn Response
  proxy_request send service path request given = do
    outgoing ← build_request service path request given
    lift (translate lib.lower (send outgoing))

  -- The route `/{service}/{path:path}` of gateway/main.py
  unfoldable pub gateway :
      (Outgoing → Sent) → String → String → Request → Exec (Cache r) Exn Response
  gateway send service path request =
      proxy_request send service path request
        (request.headers "x-developer-id", request.headers "x-developer-plan")
