-- ===== src/AuthService/Models.antt =====
-- auth_service/models/auth.py: the rows of `developers`, `refresh_tokens` and `api_keys`. An id is a
-- number that stands for a UUID, and a time is a count of seconds. The columns that the database
-- fills in and no code reads are left out.
use filo_j.Prelude.{ℕ, String, Bool, Option, List}

pub record Developer : Type 0 where
  pub id : ℕ
  pub email : String
  pub password : String
  pub name : String
  pub plan : String
  pub is_active : Bool
  pub webhook_url : Option String
  pub webhook_secret : Option String

pub record RefreshToken : Type 0 where
  pub id : ℕ
  pub token : String
  pub developer_id : ℕ
  pub is_revoked : Bool
  pub expires_at : ℕ

pub record ApiKey : Type 0 where
  pub id : ℕ
  pub key_hash : String
  pub display_prefix : String
  pub name : String
  pub developer_id : ℕ
  pub is_active : Bool

pub record Tables : Type 0 where
  pub developers : List Developer
  pub refresh_tokens : List RefreshToken
  pub api_keys : List ApiKey
