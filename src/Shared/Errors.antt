-- ===== src/Shared/Errors.antt =====
-- Exceptions as values: dispatcher/core/exceptions.py, auth_service/core/exceptions.py, and the
-- classes of Python and of the libraries that the code catches or lets through. `str(e)` is the
-- message.
use filo_j.Prelude.{String, Bool, true, false, ℕ}

pub data ExnClass : Type 0 where
  value_error key_error type_error attribute_error runtime_error : ExnClass
  unicode_decode_error json_decode_error memory_error : ExnClass
  cancelled_error keyboard_interrupt system_exit : ExnClass
  -- clamd
  connection_error buffer_too_long_error : ExnClass
  -- dispatcher/core/exceptions.py
  retryable_dispatch_error permanent_dispatch_error : ExnClass
  webhook_exception : ℕ → ExnClass
  -- shared/webhook.py
  webhook_dispatch_error : ExnClass
  -- auth_service/core/exceptions.py
  invalid_api_key_error inactive_api_key_error inactive_developer_error : ExnClass
  developer_not_found_error webhook_config_not_found_error : ExnClass
  webhook_config_conflict_error : ExnClass
  -- fastapi's `HTTPException`, with its status code
  http_exception : ℕ → ExnClass
  -- jose, grpc, with the aborted call's status, and sqlalchemy's constraint violations
  jwt_error integrity_error : ExnClass
  rpc_error : ℕ → ExnClass
  -- botocore, httpx, sqlalchemy, redis, asyncio and the rest
  client_error http_status_error multiple_results_found other_error : ExnClass

pub record Exn : Type 0 where
  pub class : ExnClass
  pub message : String

abbrev pub exn : ExnClass → String → Exn
exn c m = record { class = c; message = m }

-- `isinstance(e, DispatchError)`: `WebhookException` is one too.
abbrev pub is_dispatch_error : ExnClass → Bool
is_dispatch_error retryable_dispatch_error = true
is_dispatch_error permanent_dispatch_error = true
is_dispatch_error (webhook_exception code) = true
is_dispatch_error _ = false
