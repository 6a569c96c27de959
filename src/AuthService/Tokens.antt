-- ===== src/AuthService/Tokens.antt =====
-- auth_service/routes/auth.py: register, login, refresh and logout.
use filo_j.Prelude.{
  ℕ, ◌+◌, ◌*◌, String, true, false, not, Option, none, some, [], ◌∷◌, ◌++◌, map, Exec, pure, raise,
  raise_if, gets, modify, catch, ltb, nat_eq, if◌then◌else◌, ◌==◌, ◌>>=◌, ◌>>◌,
}
use filo_j.Shared.Errors.{Exn, exn, http_exception, attribute_error}
use filo_j.Shared.World.{Faults}
use filo_j.AuthService.Models.{Developer, RefreshToken, Tables}
use filo_j.AuthService.Session.{Session, query, flush, commit, rollback, on_tables}
use filo_j.AuthService.Utils.{
  Libraries, Environment, create_access_token, generate_refresh_token, set_refresh_cookie,
  clear_refresh_cookie,
}

pub record RegisterRequest : Type 0 where
  pub name : String
  pub email : String
  pub password : String

pub record LoginRequest : Type 0 where
  pub email : String
  pub password : String

pub record AuthResponse : Type 0 where
  pub access_token : String
  pub developer_id : String
  pub name : String
  pub plan : String

-- `token.is_revoked = True`: the row with the token's primary key
abbrev pub revoke_row : ℕ → RefreshToken → RefreshToken
revoke_row id row = if nat_eq row.id id then record row { is_revoked = true } else row

unfoldable pub revoke : ℕ → Tables → Tables
revoke id t = record t { refresh_tokens = map (revoke_row id) t.refresh_tokens }

module _ (lib : Libraries) (env : Environment) (fault : Faults) where
  -- `RefreshToken(…)`, with the defaults of its columns
  abbrev pub new_refresh_token : Developer → Session → RefreshToken
  new_refresh_token developer s = record {
    id = lib.uuid4 s.calls;
    token = generate_refresh_token lib env s.calls;
    developer_id = developer.id;
    is_revoked = false;
    expires_at = lib.now s.calls + 86400 * env.refresh_expiry_days;
  }

  -- The `try` block of `issue_tokens`
  unfoldable pub try_issue : Developer → Exec Session Exn AuthResponse
  try_issue developer = do
    refresh ← gets (new_refresh_token developer)
    access_token ←
        gets (λ s. create_access_token lib env s.calls (lib.show_uuid developer.id) developer.plan)
    modify (on_tables (λ t. record t { refresh_tokens = t.refresh_tokens ++ refresh ∷ [] }))
    commit fault
    modify (set_refresh_cookie lib env refresh.token)
    pure (record {
      access_token = access_token;
      developer_id = lib.show_uuid developer.id;
      name = developer.name;
      plan = developer.plan;
    })

  unfoldable pub issue_tokens : Developer → Exec Session Exn AuthResponse
  issue_tokens developer = catch (try_issue developer) (λ e. rollback fault >> raise e)

  -- `Developer(…)`, with the defaults of its columns
  abbrev pub new_developer : RegisterRequest → Session → Developer
  new_developer body s = record {
    id = lib.uuid4 s.calls;
    email = body.email;
    password = lib.hash_password s.calls body.password;
    name = body.name;
    plan = "free";
    is_active = true;
    webhook_url = none;
    webhook_secret = none;
  }

  -- `db.refresh` reads the row that was just flushed, so it is one more call with no effect here.
  abbrev pub register_flushed : Developer → Exec Session Exn AuthResponse
  register_flushed developer = do
    flush fault
    refreshed ← query fault (λ t. t.developers) (λ d. nat_eq d.id developer.id)
    issue_tokens developer

  abbrev pub register_unless : RegisterRequest → Option Developer → Exec Session Exn AuthResponse
  register_unless body (some existing) = raise (exn (http_exception 400) "Email already registered")
  register_unless body none = do
    developer ← gets (new_developer body)
    modify (on_tables (λ t. record t { developers = t.developers ++ developer ∷ [] }))
    register_flushed developer

  unfoldable pub register : RegisterRequest → Exec Session Exn AuthResponse
  register body = do
    found ← query fault (λ t. t.developers) (λ d. d.email == body.email)
    register_unless body found

  abbrev checked_login : LoginRequest → Option Developer → Exec Session Exn AuthResponse
  checked_login body none = raise (exn (http_exception 401) "Invalid email or password")
  checked_login body (some developer) = do
    raise_if (not (lib.verify_password body.password developer.password))
        (exn (http_exception 401) "Invalid email or password")
    raise_if (not developer.is_active) (exn (http_exception 403) "Account disabled")
    issue_tokens developer

  unfoldable pub login : LoginRequest → Exec Session Exn AuthResponse
  login body = do
    developer ← query fault (λ t. t.developers) (λ d. d.email == body.email)
    checked_login body developer

  -- `if not developer or not developer.is_active`: the log line behind it reads `developer.email`,
  -- which `None` does not have.
  abbrev pub rotate : RefreshToken → Option Developer → Exec Session Exn AuthResponse
  rotate token none = raise (exn attribute_error "'NoneType' object has no attribute 'email'")
  rotate token (some developer) = do
    raise_if (not developer.is_active) (exn (http_exception 401) "Developer not found or inactive")
    modify (on_tables (revoke token.id))
    commit fault
    issue_tokens developer

  abbrev pub checked_token : Option RefreshToken → Exec Session Exn AuthResponse
  checked_token none = raise (exn (http_exception 401) "Invalid or expired refresh token")
  checked_token (some token) = do
    raise_if token.is_revoked (exn (http_exception 401) "Invalid or expired refresh token")
    now ← gets (λ s. lib.now s.calls)
    raise_if (ltb token.expires_at now)
        (exn (http_exception 401) "Invalid or expired refresh token")
    developer ← query fault (λ t. t.developers) (λ d. nat_eq d.id token.developer_id)
    rotate token developer

  abbrev refresh_with : Option String → Exec Session Exn AuthResponse
  refresh_with none = raise (exn (http_exception 401) "No refresh token")
  refresh_with (some refresh_token) = do
    raise_if (refresh_token == "") (exn (http_exception 401) "No refresh token")
    token ← query fault (λ t. t.refresh_tokens) (λ k. k.token == refresh_token)
    checked_token token

  unfoldable pub refresh : Option String → Exec Session Exn AuthResponse
  refresh refresh_token = refresh_with refresh_token

  abbrev pub revoke_found : Option RefreshToken → Exec Session Exn (Unit {0})
  revoke_found none = pure tt
  revoke_found (some token) = do modify (on_tables (revoke token.id)); commit fault

  abbrev logout_with : Option String → Exec Session Exn (Unit {0})
  logout_with none = pure tt
  logout_with (some refresh_token) = if refresh_token == "" then pure tt else (do
    token ← query fault (λ t. t.refresh_tokens) (λ k. k.token == refresh_token)
    revoke_found token)

  unfoldable pub logout : Option String → Exec Session Exn (Unit {0})
  logout refresh_token = do logout_with refresh_token; modify (clear_refresh_cookie lib env)
