-- ===== src/Gateway/AuthClient.antt =====
-- gateway/grpc_clients/auth_client.py: `AuthGrpcClient.look_up_api_key`, over what the call of the
-- auth service came to.
use filo_j.Prelude.{ℕ, String, Bool, Result, ok, err}
use filo_j.Shared.Errors.{Exn, exn, http_exception}

-- shared/protos/auth.proto, `ApiKeyLookupResponse`
pub record ApiKeyLookupResponse : Type 0 where
  pub found : Bool
  pub status : String
  pub developer_id : String
  pub api_key_id : String
  pub plan : String
  pub requests_per_hour : ℕ
  pub max_file_size_bytes : ℕ
  pub storage_quota_bytes : ℕ

-- The codes of gRPC that the clients tell apart, and those that the service aborts with.
pub data StatusCode : Type 0 where
  unauthenticated unavailable not_found internal other : StatusCode

-- A reply, an `RpcError` with its code and details, or another exception.
pub data Reply (A : Type 0) : Type 0 where
  answered : A → Reply A
  aborted : StatusCode → String → Reply A
  broken : String → Reply A

unfoldable pub look_up_api_key : Reply ApiKeyLookupResponse → Result Exn ApiKeyLookupResponse
look_up_api_key (answered response) = ok response
look_up_api_key (aborted unauthenticated details) = err (exn (http_exception 401) details)
look_up_api_key (aborted unavailable details) = err (exn (http_exception 503) details)
look_up_api_key (aborted _ details) = err (exn (http_exception 500) "Internal authentication error")
look_up_api_key (broken message) = err (exn (http_exception 500) "Internal Server Error")
