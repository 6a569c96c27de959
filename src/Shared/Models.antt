-- ===== src/Shared/Models.antt =====
-- shared/models.py: the rows of the tables `jobs`, `audit_logs` and `file_metadata`. An id is a
-- number that stands for a UUID. The columns that the database fills in by itself and no code
-- reads, `created_at`, are left out; `updated_at` is the time of the last write.
use filo_j.Prelude.{ℕ, String}
use filo_j.Shared.Values.{Json}

pub record Job : Type 0 where
  pub id : ℕ
  pub file_id : ℕ
  pub status : String
  pub result_data : Json
  pub updated_at : ℕ

pub record AuditLog : Type 0 where
  pub job_id : ℕ
  pub service : String
  pub routing_key : String
  pub action : String

pub record FileMetaData : Type 0 where
  pub id : ℕ
  pub name : String
  pub developer_id : String
  pub type : String
  pub upload_id : String
  pub storage_location : String
  pub bucket : String
