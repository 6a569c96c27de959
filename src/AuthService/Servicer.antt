-- ===== src/AuthService/Servicer.antt =====
-- auth_service/grpc/grpc_servicer.py: the two lookups. `context.abort` ends the call with a status.
use filo_j.Prelude.{
  ℕ, String, Bool, true, false, Option, none, some, Result, ok, err, lookup, if◌then◌else◌,
}
use filo_j.Shared.Config.{PlanLimits, plan_limits}
use filo_j.Shared.Errors.{
  Exn, ExnClass, invalid_api_key_error, inactive_api_key_error, inactive_developer_error,
  developer_not_found_error, webhook_config_not_found_error,
}
use filo_j.Shared.World.{Faults}
use filo_j.AuthService.Models.{Developer}
use filo_j.AuthService.Session.{Session}
use filo_j.AuthService.Services.{get_api_key_developer, get_webhook_config}
use filo_j.Gateway.AuthClient.{
  ApiKeyLookupResponse, Reply, answered, aborted, StatusCode, unauthenticated, not_found, internal,
}
use filo_j.Dispatcher.Resolver.{WebhookConfigResponse}

abbrev pub is_refusal : ExnClass → Bool
is_refusal inactive_developer_error = true
is_refusal invalid_api_key_error = true
is_refusal inactive_api_key_error = true
is_refusal _ = false

-- A plan without limits is `None`, which has no `get`: the call fails outside of its `try` block, and
-- grpc ends it with the code `UNKNOWN`.
abbrev limited_response :
    String → Developer → String → Option PlanLimits → Reply ApiKeyLookupResponse
limited_response id developer status none =
    aborted StatusCode.other
      "Unexpected <class 'AttributeError'>: 'NoneType' object has no attribute 'get'"
limited_response id developer status (some limits) = answered (record {
  found = true;
  status = status;
  developer_id = id;
  api_key_id = "";
  plan = developer.plan;
  requests_per_hour = limits.requests_per_hour;
  max_file_size_bytes = limits.max_file_size_bytes;
  storage_quota_bytes = limits.storage_quota_bytes;
})

module _ (show_uuid : ℕ → String) (lower : String → String) (fault : Faults) where
  abbrev key_response : Result Exn (Developer × String) → Reply ApiKeyLookupResponse
  key_response (err e) =
      if is_refusal e.class
      then aborted unauthenticated (lower e.message)
      else aborted internal (lower e.message)
  key_response (ok (developer, status)) =
      limited_response (show_uuid developer.id) developer status (lookup developer.plan plan_limits)

  -- `LookupApiKey`
  unfoldable pub lookup_api_key : String → Session → Reply ApiKeyLookupResponse
  lookup_api_key key_hash s = key_response (get_api_key_developer fault key_hash s).0

  abbrev config_error : ExnClass → String → Reply WebhookConfigResponse
  config_error webhook_config_not_found_error message =
      answered (record { found = false; webhook_url = ""; webhook_secret = "" })
  config_error developer_not_found_error message = aborted not_found (lower message)
  config_error _ message = aborted internal (lower message)

  abbrev config_response : Result Exn (String × String) → Reply WebhookConfigResponse
  config_response (ok (url, secret)) =
      answered (record { found = true; webhook_url = url; webhook_secret = secret })
  config_response (err e) = config_error e.class e.message

  -- `LookupWebhookConfig`
  unfoldable pub lookup_webhook_config : ℕ → Session → Reply WebhookConfigResponse
  lookup_webhook_config developer_id s = config_response (get_webhook_config fault developer_id s).0
