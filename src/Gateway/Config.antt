-- ===== src/Gateway/Config.antt =====
-- gateway/core/config.py: `Settings` and its two tables. Timeouts are whole seconds.
use filo_j.Prelude.{ℕ, String, Option, none, List, [], ◌∷◌}

pub record Settings : Type 0 where
  pub file_service_url : String
  pub auth_service_url : String
  pub file_service_timeout : ℕ
  pub auth_service_timeout : ℕ
  pub default_timeout : ℕ
  pub internal_gateway_secret : Option String
  pub jwt_secret : String
  pub jwt_algorithm : String

-- The values that a setting has without an environment variable; `JWT_SECRET` has none.
abbrev pub default_settings : String → Settings
default_settings jwt_secret = record {
  file_service_url = "http://localhost:8002";
  auth_service_url = "http://localhost:8001";
  file_service_timeout = 60;
  auth_service_timeout = 10;
  default_timeout = 30;
  internal_gateway_secret = none;
  jwt_secret = jwt_secret;
  jwt_algorithm = "HS256";
}

-- `Settings.services`
abbrev pub services : Settings → List (String × String)
services s = ("file", s.file_service_url) ∷ ("auth", s.auth_service_url) ∷ []

-- `Settings.timeouts`
abbrev pub timeouts : Settings → List (String × ℕ)
timeouts s =
    ("file", s.file_service_timeout)
    ∷ ("auth", s.auth_service_timeout)
    ∷ ("default", s.default_timeout)
    ∷ []
