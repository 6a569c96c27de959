-- ===== src/Tests/AuthService.antt =====
-- Scenarios of auth_service: one developer with one refresh token.
use filo_j.Prelude.{◌≡◌, ◌≢◌, refl, true, false, none, some, [], ◌∷◌, ok, ◌==◌}
use filo_j.Shared.World.{Faults}
use filo_j.AuthService.Models.{Developer, RefreshToken, Tables}
use filo_j.AuthService.Session.{Session, new_request, commit}
use filo_j.AuthService.Utils.{
  Libraries, Environment, create_access_token, generate_refresh_token, set_refresh_cookie,
}
use filo_j.AuthService.Tokens.{
  AuthResponse, RegisterRequest, register, refresh, logout, issue_tokens, try_issue, revoke,
}
use filo_j.AuthService.Rotation.{refresh_once}
use filo_j.AuthService.Services.{configure, create_webhook_config, get_webhook_config}
use filo_j.AuthService.WebhookLaws.{create_webhook_config-get_webhook_config}
use filo_j.AuthService.Registration.{Registers, register-Registers}
use filo_j.AuthService.Logout.{logout_refused}
use filo_j.AuthService.Utils.{get_current_developer}
use filo_j.AuthService.Services.{get_api_key_developer}
use filo_j.AuthService.ApiKeys.{create_apikey}
use filo_j.AuthService.ApiKeyLaws.{create_apikey-get_api_key_developer}

abbrev lib : Libraries
lib = record {
  hash_password = λ n p. p;
  verify_password = λ p h. p == h;
  jwt_encode = λ sub plan exp. "jwt";
  jwt_decode = λ t. none;
  token_urlsafe = λ n size. "t1";
  parse_uuid = λ s. some 7;
  show_uuid = λ n. "7";
  uuid4 = λ n. n;
  sha256 = λ s. s;
  strip = λ s. s;
  now = λ n. 1000;
}

abbrev env : Environment
env = record { jwt_expiry_minutes = 60; refresh_expiry_days = 30; internal_secret = some "s" }

abbrev no_fault : Faults
no_fault n = none

abbrev ann : Developer
ann = record {
  id = 7;
  email = "ann@example.org";
  password = "pw";
  name = "Ann";
  plan = "free";
  is_active = true;
  webhook_url = none;
  webhook_secret = none;
}

abbrev token : RefreshToken
token = record { id = 3; token = "t0"; developer_id = 7; is_revoked = false; expires_at = 2000 }

abbrev tables : Tables
tables = record { developers = ann ∷ []; refresh_tokens = token ∷ []; api_keys = [] }

abbrev session : Session
session = record { calls = 0; committed = tables; tables = tables; cookie = none }

abbrev reply : AuthResponse
reply = record { access_token = "jwt"; developer_id = "7"; name = "Ann"; plan = "free" }

refresh_once_example :
    (refresh lib env no_fault
      (some "t0")
      (new_request (refresh lib env no_fault (some "t0") session).1)).0
    ≢ ok reply
unfolding refresh issue_tokens try_issue revoke commit create_access_token generate_refresh_token
    set_refresh_cookie
refresh_once_example = refresh_once lib env no_fault "t0" session {r = reply} {r' = reply} refl

logout_refused_example :
    (refresh lib env no_fault
      (some "t0")
      (new_request (logout lib env no_fault (some "t0") (new_request session)).1)).0
    ≢ ok reply
unfolding logout revoke commit
logout_refused_example = logout_refused lib env no_fault "t0" session {r = reply} refl

create_webhook_config-get_webhook_config_example :
    (get_webhook_config no_fault 7
      (new_request (create_webhook_config no_fault 7 "https://example.org" "k" session).1)).0
    ≡ ok ("https://example.org", "k")
unfolding create_webhook_config commit configure
create_webhook_config-get_webhook_config_example =
    create_webhook_config-get_webhook_config no_fault 7 "https://example.org" "k" ann session
      {p = ("https://example.org", "k")} refl refl refl refl refl refl

abbrev bob : RegisterRequest
bob = record { name = "Bob"; email = "bob@example.org"; password = "pw" }

register-Registers_example : Registers lib env bob session (register lib env no_fault bob session)
register-Registers_example = register-Registers lib env no_fault bob session

-- A first key, by its hash
create_apikey-get_api_key_developer_example :
    (get_api_key_developer no_fault "FiloJ_app_t1"
      (new_request (create_apikey lib env no_fault (λ name. name) (some "7") "app" session).1)).0
    ≡ ok (ann, "active")
unfolding create_apikey commit get_current_developer
create_apikey-get_api_key_developer_example =
    create_apikey-get_api_key_developer lib env no_fault (λ name. name) (some "7") "app" 7 ann
      session {raw = "FiloJ_app_t1"} refl refl refl refl refl refl
