-- ===== src/AuthService/ApiKeys.antt =====
-- auth_service/routes/api_keys.py: `create_apikey`.
use Prim.Native.String.{◌++◌ as ◌++ₛ◌}
use filo_j.Prelude.{
  ℕ, String, true, ◌&&◌, Option, none, some, [], ◌∷◌, ◌++◌, Exec, pure, raise, lift, gets, modify,
  nat_eq, ◌==◌, ◌>>=◌, ◌>>◌,
}
use filo_j.Shared.Errors.{Exn, exn, http_exception}
use filo_j.Shared.World.{Faults}
use filo_j.AuthService.Models.{ApiKey}
use filo_j.AuthService.Session.{Session, query, commit, on_tables}
use filo_j.AuthService.Utils.{Libraries, Environment, get_current_developer}

-- `name.lower().replace(" ", "_")[:10]` is the parameter `tag_of`.
module _ (lib : Libraries) (env : Environment) (fault : Faults) (tag_of : String → String) where
  abbrev pub plain_key : String → ℕ → String
  plain_key name calls = "FiloJ_" ++ₛ (tag_of name ++ₛ ("_" ++ₛ lib.token_urlsafe calls 32))

  abbrev pub new_api_key : String → ℕ → Session → ApiKey
  new_api_key name developer_id s = record {
    id = lib.uuid4 s.calls;
    key_hash = lib.sha256 (plain_key name s.calls);
    display_prefix = tag_of name ++ₛ "******************";
    name = name;
    developer_id = developer_id;
    is_active = true;
  }

  abbrev pub create_unless : String → ℕ → Option ApiKey → Exec Session Exn String
  create_unless name developer_id (some existing) =
      raise (exn (http_exception 403) "Api key already exists in this name")
  create_unless name developer_id none = do
    key ← gets (new_api_key name developer_id)
    raw_key ← gets (λ s. plain_key name s.calls)
    modify (on_tables (λ t. record t { api_keys = t.api_keys ++ key ∷ [] }))
    commit fault
    pure raw_key

  -- The answer is the raw key, which is stored only as its hash.
  unfoldable pub create_apikey : Option String → String → Exec Session Exn String
  create_apikey header name = do
    developer_id ← lift (get_current_developer lib env header)
    existing ←
        query fault (λ t. t.api_keys) (λ k. k.name == name && nat_eq k.developer_id developer_id)
    create_unless name developer_id existing
