-- ===== src/AuthService/Services.antt =====
-- auth_service/services/auth.py, and the routes of auth_service/routes/webhook.py over it.
use Prim.Native.String.{◌++◌ as ◌++ₛ◌}
use filo_j.Prelude.{
  ℕ, String, not, ◌||◌, Option, none, some, map, Exec, pure, raise, raise_if, lift, gets, modify,
  catch, nat_eq, if◌then◌else◌, ◌==◌, ◌>>=◌, ◌>>◌,
}
use filo_j.Shared.Errors.{
  Exn, exn, invalid_api_key_error, inactive_developer_error, developer_not_found_error,
  webhook_config_not_found_error,
}
use filo_j.Shared.World.{Faults}
use filo_j.AuthService.Models.{Developer, ApiKey, Tables}
use filo_j.AuthService.Session.{Session, query, commit, rollback, on_tables}
use filo_j.AuthService.Utils.{Libraries, Environment, get_current_developer}

-- An assignment to the two columns of the developer's row
abbrev pub configure_row : ℕ → Option String → Option String → Developer → Developer
configure_row id url secret row =
    if nat_eq row.id id then record row { webhook_url = url; webhook_secret = secret } else row

unfoldable pub configure : ℕ → Option String → Option String → Tables → Tables
configure id url secret t = record t { developers = map (configure_row id url secret) t.developers }

module _ (fault : Faults) where
  -- The developer of a key, by the foreign key of its row
  abbrev checked_developer : ApiKey → Option Developer → Exec Session Exn (Developer × String)
  checked_developer key none = raise (exn developer_not_found_error "")
  checked_developer key (some developer) = do
    raise_if (not developer.is_active) (exn inactive_developer_error "Developer inactive/revoked")
    pure (developer, if key.is_active then "active" else "revoked")

  abbrev checked_key : Option ApiKey → Exec Session Exn (Developer × String)
  checked_key none =
      raise (exn invalid_api_key_error "Api key not found. Please check with the environment")
  checked_key (some key) = do
    developer ← query fault (λ t. t.developers) (λ d. nat_eq d.id key.developer_id)
    checked_developer key developer

  -- `selectinload` reads the key's developer with a query of its own.
  unfoldable pub get_api_key_developer : String → Exec Session Exn (Developer × String)
  get_api_key_developer key_hash = do
    key ← query fault (λ t. t.api_keys) (λ k. k.key_hash == key_hash)
    checked_key key

  abbrev both : Option String → Option String → Exec Session Exn (String × String)
  both (some url) (some secret) =
      if url == "" || secret == ""
      then raise (
          exn webhook_config_not_found_error
            "Webhook details not configured, please do it in the dashboard")
      else pure (url, secret)
  both _ _ = raise (
      exn webhook_config_not_found_error
        "Webhook details not configured, please do it in the dashboard")

  abbrev pub configured : Option Developer → Exec Session Exn (String × String)
  configured none = raise (exn developer_not_found_error "Developer not found")
  configured (some developer) = do
    raise_if (not developer.is_active) (exn inactive_developer_error "Developer inactive/revoked")
    both developer.webhook_url developer.webhook_secret

  unfoldable pub get_webhook_config : ℕ → Exec Session Exn (String × String)
  get_webhook_config developer_id = do
    developer ← query fault (λ t. t.developers) (λ d. nat_eq d.id developer_id)
    configured developer

  abbrev pub create_for : String → String → Option Developer → Exec Session Exn (String × String)
  create_for url secret none = raise (exn developer_not_found_error "Developer not found")
  create_for url secret (some developer) = do
    modify (on_tables (configure developer.id (some url) (some secret)))
    commit fault
    pure (url, secret)

  unfoldable pub create_webhook_config : ℕ → String → String → Exec Session Exn (String × String)
  create_webhook_config developer_id url secret =
      catch
        (do
          developer ← query fault (λ t. t.developers) (λ d. nat_eq d.id developer_id)
          create_for url secret developer)
        (λ e. rollback fault >> raise e)

  abbrev delete_for : Option Developer → Exec Session Exn (Unit {0})
  delete_for none = raise (exn developer_not_found_error "Developer not found")
  delete_for (some developer) =
      catch (do modify (on_tables (configure developer.id none none)); commit fault)
        (λ e. rollback fault >> raise e)

  unfoldable pub delete_webhook_config : ℕ → Exec Session Exn (Unit {0})
  delete_webhook_config developer_id = do
    developer ← query fault (λ t. t.developers) (λ d. nat_eq d.id developer_id)
    delete_for developer

module _ (lib : Libraries) (env : Environment) (fault : Faults) (take : ℕ → String → String)
    (lower : String → String) where
  -- `POST /api/webhook`: `set_webhook_config`. `take n` is a slice `[:n]`.
  unfoldable pub set_webhook_config : Option String → String → Exec Session Exn (String × String)
  set_webhook_config header webhook_url = do
    developer_id ← lift (get_current_developer lib env header)
    new_secret ← gets (λ s. lib.token_urlsafe s.calls 32)
    let env_tag = lib.strip (lower (take 8 (lib.show_uuid developer_id)))
    create_webhook_config fault developer_id webhook_url
        ("Filo-J_" ++ₛ (env_tag ++ₛ ("_" ++ₛ new_secret)))

  -- `GET /api/webhook`: `obtain_webhook_config`, which masks the secret
  unfoldable pub obtain_webhook_config : Option String → Exec Session Exn (String × String)
  obtain_webhook_config header = do
    developer_id ← lift (get_current_developer lib env header)
    (webhook_url, webhook_secret) ← get_webhook_config fault developer_id
    pure (webhook_url, lib.strip (take 5 webhook_secret) ++ₛ "**********")

  -- `DELETE /api/webhook`. The URL that was found is never `None`, so the route's own 404 does not
  -- occur: a missing configuration ends in `WebhookConfigNotFoundError`.
  unfoldable pub delete_webhook_route : Option String → Exec Session Exn (Unit {0})
  delete_webhook_route header = do
    developer_id ← lift (get_current_developer lib env header)
    (webhook_url, webhook_secret) ← get_webhook_config fault developer_id
    delete_webhook_config fault developer_id
