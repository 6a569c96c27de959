-- ===== src/Dispatcher/Delivery.antt =====
-- dispatcher/orchestrator/delivery.py, dispatcher/utils/signer.py and dispatcher/utils/headers.py.
-- httpx, `hmac` and `str(int)` are parameters.
use Prim.Native.String.{◌++◌ as ◌++ₛ◌}
use filo_j.Prelude.{
  ℕ, String, Bool, Option, none, some, List, [], ◌∷◌, ◌&&◌, ◌||◌, Result, ok, err, ltb, leb, nat_eq,
  if◌then◌else◌,
}
use filo_j.Shared.Errors.{
  Exn, exn, retryable_dispatch_error, permanent_dispatch_error, http_status_error,
}

-- What `http_client.post` comes to: a response with its status code, one of `ConnectError`,
-- `ConnectTimeout` and `ReadTimeout`, or another exception.
pub data Posted : Type 0 where
  responded : ℕ → Posted
  unreachable : String → Posted
  failed : Exn → Posted

pub record HttpLibraries : Type 0 where
  pub hmac_sha256 : String → String → String
  pub show : ℕ → String
  -- `raise_for_status`: does it raise for this status code?
  pub raises_for_status : ℕ → Bool

module _ (lib : HttpLibraries) where
  -- `str(key)` of a missing key is "None".
  abbrev str_key : Option String → String
  str_key none = "None"
  str_key (some key) = key

  unfoldable pub sign_request_body : Option String → String → String
  sign_request_body key body_str = lib.hmac_sha256 (str_key key) body_str

  unfoldable pub prepare_headers : ℕ → String → List (String × String)
  prepare_headers now signature =
      ("Content-Type", "application/json")
      ∷ ("X-Webhook-Signature", "sha256=" ++ₛ signature)
      ∷ ("X-Webhook-Timestamp", lib.show now)
      ∷ []

  abbrev check_status : ℕ → Result Exn (Unit {0})
  check_status code =
      if leb 300 code && ltb code 429
      then err (exn permanent_dispatch_error ("redirect not followed: " ++ₛ lib.show code))
      else if nat_eq code 429 || leb 500 code
      then err (exn retryable_dispatch_error ("status " ++ₛ lib.show code))
      else if lib.raises_for_status code
      then err (exn http_status_error "status error")
      else ok tt

  -- `attempt_delivery`, over what the request came to
  unfoldable pub attempt_delivery : Posted → Result Exn (Unit {0})
  attempt_delivery (unreachable message) = err (exn retryable_dispatch_error message)
  attempt_delivery (failed e) = err e
  attempt_delivery (responded code) = check_status code
