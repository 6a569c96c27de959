-- ===== src/Migrations/Env.antt =====
-- database/migrations/env.py: how the migrations are configured. A text that passes through the
-- configuration is a list of code points, of which 37 is `%`; `%` and what follows it is read by the
-- interpolation of `configparser`, where a reference to another option is a parameter.
pub mod Laws
use filo_j.Prelude.{
  ℕ, String, Bool, true, false, Option, none, some, List, [], ◌∷◌, nat_eq, if◌then◌else◌, ◌==◌,
}

abbrev pub percent : ℕ
percent = 37

-- `db_url.replace("%", "%%")`
abbrev pub escape : List ℕ → List ℕ
escape [] = []
escape (c ∷ url) =
    let rest = escape url in if nat_eq c percent then percent ∷ percent ∷ rest else c ∷ rest

abbrev pub prepend : ℕ → Option (List ℕ) → Option (List ℕ)
prepend c none = none
prepend c (some value) = some (c ∷ value)

-- `BasicInterpolation` of configparser: what is read of an option with this value, if it can be read
abbrev pub interpolate : (List ℕ → Option (List ℕ)) → List ℕ → Option (List ℕ)
interpolate reference [] = some []
interpolate reference (c ∷ []) = if nat_eq c percent then none else some (c ∷ [])
interpolate reference (c ∷ d ∷ value) =
    let rest = interpolate reference value in
    let other = interpolate reference (d ∷ value) in
    if nat_eq c percent
    then (if nat_eq d percent then prepend percent rest else reference (d ∷ value))
    else prepend c other

-- `os.getenv` of the two variables, and the address of the local database
pub record Variables : Type 0 where
  pub database_url : Option (List ℕ)
  pub database_schema : Option String
  pub local_url : List ℕ

abbrev pub db_url : Variables → List ℕ
db_url v = elim v.database_url [ none ↦ v.local_url | some url ↦ url ]

-- `config.set_main_option("sqlalchemy.url", db_url)`
abbrev pub url_option : Variables → List ℕ
url_option v = escape (db_url v)

-- A name of a schema is `None` for the default one.
abbrev pub same_name : Option String → Option String → Bool
same_name none none = true
same_name (some name) (some schema) = name == schema
same_name _ _ = false

unfoldable pub include_name : Option String → Option String → String → Bool
include_name db_schema name type_ = if type_ == "schema" then same_name name db_schema else true

-- What `context.configure` is given; online there is a connection in place of the URL.
pub record Configuration : Type 0 where
  pub url : Option (List ℕ)
  pub literal_binds : Bool
  pub paramstyle : Option String
  pub version_table_schema : Option String
  pub include_schemas : Bool
  pub include_name : Option String → String → Bool

module _ (reference : List ℕ → Option (List ℕ)) (v : Variables) where
  -- `run_migrations_offline`
  unfoldable pub configure_offline : Configuration
  configure_offline = record {
    url = interpolate reference (url_option v);
    literal_binds = true;
    paramstyle = some "named";
    version_table_schema = v.database_schema;
    include_schemas = true;
    include_name = include_name v.database_schema;
  }

  -- `do_run_migrations`
  unfoldable pub configure_online : Configuration
  configure_online = record {
    url = none;
    literal_binds = false;
    paramstyle = none;
    version_table_schema = v.database_schema;
    include_schemas = true;
    include_name = include_name v.database_schema;
  }

  -- The address that `async_engine_from_config` reads from the section
  unfoldable pub engine_url : Option (List ℕ)
  engine_url = interpolate reference (url_option v)

  -- The end of the file
  unfoldable pub configure : Bool → Configuration
  configure is_offline_mode = if is_offline_mode then configure_offline else configure_online
