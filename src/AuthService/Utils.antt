-- ===== src/AuthService/Utils.antt =====
-- auth_service/utils/auth.py. passlib, python-jose, `secrets`, `uuid`, `hashlib` and the clock are
-- parameters; those that are not functions of their arguments take the number of external calls.
use filo_j.Prelude.{
  ℕ, ◌+◌, ◌*◌, String, Bool, Option, none, some, List, Result, ok, err, if◌then◌else◌, ◌==◌,
}
use filo_j.Shared.Errors.{Exn, exn, http_exception}
use filo_j.AuthService.Session.{Session}

pub record Libraries : Type 0 where
  pub hash_password : ℕ → String → String
  pub verify_password : String → String → Bool
  pub jwt_encode : String → String → ℕ → String
  pub jwt_decode : String → Option (List (String × String))
  pub token_urlsafe : ℕ → ℕ → String
  pub parse_uuid : String → Option ℕ
  pub show_uuid : ℕ → String
  pub uuid4 : ℕ → ℕ
  pub sha256 : String → String
  pub strip : String → String
  pub now : ℕ → ℕ

-- `JWT_EXPIRY_MINUTES`, `REFRESH_EXPIRY_DAYS`, `INTERNAL_SECRET`
pub record Environment : Type 0 where
  pub jwt_expiry_minutes : ℕ
  pub refresh_expiry_days : ℕ
  pub internal_secret : Option String

module _ (lib : Libraries) (env : Environment) where
  unfoldable pub create_access_token : ℕ → String → String → String
  create_access_token calls developer_id plan =
      lib.jwt_encode developer_id plan (lib.now calls + 60 * env.jwt_expiry_minutes)

  unfoldable pub decode_access_token : String → Result Exn (List (String × String))
  decode_access_token token = elim (lib.jwt_decode token) [
    | some claims ↦ ok claims
    | none ↦ err (exn (http_exception 401) "Invalid or expired token")
  ]

  unfoldable pub generate_refresh_token : ℕ → String
  generate_refresh_token calls = lib.token_urlsafe calls 64

  unfoldable pub set_refresh_cookie : String → Session → Session
  set_refresh_cookie token s = record s { cookie = some (some token) }

  unfoldable pub clear_refresh_cookie : Session → Session
  clear_refresh_cookie s = record s { cookie = some none }

  -- The headers `X-Internal-Secret` and `INTERNAL_SECRET` may both be `None`.
  abbrev same_secret : Option String → Option String → Bool
  same_secret none none = Bool.true
  same_secret (some a) (some b) = a == b
  same_secret _ _ = Bool.false

  unfoldable pub verify_internal_request : Option String → Result Exn (Unit {0})
  verify_internal_request secret =
      if same_secret secret env.internal_secret
      then ok tt
      else err (exn (http_exception 403) "Direct access not allowed")

  abbrev parse_developer : String → Result Exn ℕ
  parse_developer header = elim (lib.parse_uuid header) [
    | some id ↦ ok id
    | none ↦ err (exn (http_exception 401) "Invalid Developer ID format")
  ]

  unfoldable pub get_current_developer : Option String → Result Exn ℕ
  get_current_developer none =
      err (exn (http_exception 401) "Missing User ID header. Are you bypassing the gateway?")
  get_current_developer (some header) =
      if header == ""
      then err (exn (http_exception 401) "Missing User ID header. Are you bypassing the gateway?")
      else parse_developer header

  unfoldable pub hash_api_key : String → String
  hash_api_key api_key = lib.sha256 (lib.strip api_key)
