-- ===== src/Dispatcher/Resolver.antt =====
-- dispatcher/grpc_clients/auth_client.py and dispatcher/orchestrator/webhook_config.py.
use filo_j.Prelude.{
  ℕ, zero, suc, String, Bool, Option, List, [], ◌∷◌, lookup, Result, ok, err, Exec, raise, pure,
  ◌>>=◌, ◌>>◌,
}
use filo_j.Shared.Errors.{Exn, exn, webhook_exception, runtime_error}
use filo_j.Shared.Redis.{Redis}
use filo_j.Shared.World.{Faults}
use filo_j.Gateway.AuthClient.{
  Reply, answered, aborted, broken, unauthenticated, unavailable, not_found,
}
use filo_j.Dispatcher.WebhookRepo.{Dispatch, cache_webhook_config, get_cache_data}

-- shared/protos/auth.proto, `WebhookConfigResponse`
pub record WebhookConfigResponse : Type 0 where
  pub found : Bool
  pub webhook_url : String
  pub webhook_secret : String

-- `WebhookException(code, details)`: its `__init__` passes nothing on, and both arguments are given
-- by keyword, so `str(e)` is empty.
abbrev webhook_error : ℕ → Exn
webhook_error code = exn (webhook_exception code) ""

-- `AuthGrpcClient.look_up_webhook_config`
unfoldable pub look_up_webhook_config :
    Reply WebhookConfigResponse → Result Exn WebhookConfigResponse
look_up_webhook_config (answered response) = ok response
look_up_webhook_config (aborted unauthenticated details) = err (webhook_error 401)
look_up_webhook_config (aborted unavailable details) = err (webhook_error 503)
look_up_webhook_config (aborted not_found details) = err (webhook_error 400)
look_up_webhook_config (aborted _ details) = err (webhook_error 500)
look_up_webhook_config (broken message) = err (webhook_error 500)

-- What the n-th external call, a lookup of this developer, comes to.
abbrev pub WebhookRpc : Type 0
WebhookRpc = ℕ → String → Reply WebhookConfigResponse

abbrev pub config_of : WebhookConfigResponse → List (String × String)
config_of response =
    ("webhook_url", response.webhook_url) ∷ ("webhook_secret", response.webhook_secret) ∷ []

module _ (r : Redis) (fault : Faults) (rpc : WebhookRpc) where
  abbrev pub ask_auth_service : String → Exec (Dispatch r) Exn WebhookConfigResponse
  ask_auth_service developer_id d = (
    look_up_webhook_config (rpc d.world.calls developer_id),
    record d { world = record d.world { calls = suc d.world.calls } },
  )

  -- `if not webhook_config` and what follows
  abbrev pub or_look_up :
      Exec (Dispatch r) Exn (Option String × Option String)
      → String
      → List (String × String)
      → Exec (Dispatch r) Exn (Option String × Option String)
  or_look_up again developer_id [] = do
    response ← ask_auth_service developer_id
    cache_webhook_config r fault developer_id (config_of response) 600
    again
  or_look_up again developer_id (field ∷ fields) =
      pure (lookup "webhook_url" (field ∷ fields), lookup "webhook_secret" (field ∷ fields))

  -- `WebhookConfigResolver.get_webhook_config`; without fuel it raises `RecursionError`.
  unfoldable pub get_webhook_config :
      ℕ → String → Exec (Dispatch r) Exn (Option String × Option String)
  get_webhook_config zero developer_id =
      raise (exn runtime_error "maximum recursion depth exceeded")
  get_webhook_config (suc fuel) developer_id =
      let again = get_webhook_config fuel developer_id in
      do
        webhook_config ← get_cache_data r fault developer_id
        or_look_up again developer_id webhook_config
