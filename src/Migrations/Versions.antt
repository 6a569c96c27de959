-- ===== src/Migrations/Versions.antt =====
-- database/migrations/versions: what each revision does and which one it follows.
use filo_j.Prelude.{String, Bool, true, false, Option, none, some, List, [], ◌∷◌}
use filo_j.Migrations.Op.{
  ColumnType, uuid, text, boolean, jsonb, string, date_time, Column, ForeignKey, Op, create_table,
  drop_table, create_index, drop_index, add_column, drop_column, alter_column, create_foreign_key,
  drop_constraint,
}

-- The files by the names that follow their numbers
pub data Revision : Type 0 where
  initial_tables nullable_upload_id refined_models remove_job_type : Revision
  remove_nullability add_auth_tables add_timezone add_display_prefix : Revision
  add_developer_id add_webhook : Revision

abbrev pub down_revision : Revision → Option Revision
down_revision initial_tables = none
down_revision nullable_upload_id = some initial_tables
down_revision refined_models = some nullable_upload_id
down_revision remove_job_type = some refined_models
down_revision remove_nullability = some remove_job_type
down_revision add_auth_tables = some remove_nullability
down_revision add_timezone = some add_auth_tables
down_revision add_display_prefix = some add_timezone
down_revision add_developer_id = some add_display_prefix
down_revision add_webhook = some add_developer_id

-- `sa.Column(name, type, nullable=…)`, and the same with `server_default=sa.text('now()')`
abbrev pub column : String → ColumnType → Bool → Column
column name type nullable = record {
  name = name;
  type = type;
  nullable = nullable;
  server_default = none;
}

abbrev pub column_now : String → ColumnType → Bool → Column
column_now name type nullable = record (column name type nullable) { server_default = some "now()" }

abbrev key : String → String → ForeignKey
key column table = record { column = column; table = table; target = "id" }

abbrev pub upgrade_initial_tables : List Op
upgrade_initial_tables =
    create_table "jobs"
      (column "id" uuid false
        ∷ column "upload_id" (string none) true
        ∷ column "job_type" (string none) false
        ∷ column "status" (string none) true
        ∷ column "result_data" jsonb true
        ∷ column_now "created_at" (date_time true) true
        ∷ column_now "updated_at" (date_time true) true
        ∷ [])
      []
    ∷ create_index "ix_dunno_what_jobs_upload_id" "jobs" "upload_id" false
    ∷ create_table "audit_logs"
        (column "id" uuid false
          ∷ column "job_id" uuid false
          ∷ column "service" (string (some 255)) false
          ∷ column "routing_key" (string (some 255)) false
          ∷ column "action" text false
          ∷ column_now "timestamp" (date_time true) true
          ∷ [])
        (key "job_id" "jobs" ∷ [])
    ∷ create_index "ix_dunno_what_audit_logs_job_id" "audit_logs" "job_id" false
    ∷ []

abbrev pub downgrade_initial_tables : List Op
downgrade_initial_tables =
    drop_index "ix_dunno_what_audit_logs_job_id" "audit_logs"
    ∷ drop_table "audit_logs"
    ∷ drop_index "ix_dunno_what_jobs_upload_id" "jobs"
    ∷ drop_table "jobs"
    ∷ []

abbrev pub upgrade_refined_models : List Op
upgrade_refined_models =
    alter_column "audit_logs" "timestamp" (date_time true) (some (date_time false)) (some false)
    ∷ add_column "file_metadata" (column "type" (string (some 20)) false)
    ∷ add_column "file_metadata" (column "storage_location" (string (some 255)) false)
    ∷ add_column "file_metadata" (column "bucket" (string none) false)
    ∷ add_column "file_metadata" (column_now "created_at" (date_time false) false)
    ∷ add_column "file_metadata" (column_now "updated_at" (date_time false) false)
    ∷ add_column "jobs" (column "file_id" uuid false)
    ∷ alter_column "jobs" "status" (string none) none (some false)
    ∷ alter_column "jobs" "result_data" jsonb none (some false)
    ∷ alter_column "jobs" "created_at" (date_time true) (some (date_time false)) (some false)
    ∷ alter_column "jobs" "updated_at" (date_time true) (some (date_time false)) (some false)
    ∷ drop_index "ix_dunno_what_jobs_upload_id" "jobs"
    ∷ create_foreign_key "jobs" (key "file_id" "file_metadata")
    ∷ drop_column "jobs" "upload_id"
    ∷ []

abbrev pub downgrade_refined_models : List Op
downgrade_refined_models =
    add_column "jobs" (column "upload_id" (string none) false)
    ∷ drop_constraint none "jobs"
    ∷ create_index "ix_dunno_what_jobs_upload_id" "jobs" "upload_id" false
    ∷ alter_column "jobs" "updated_at" (date_time false) (some (date_time true)) (some true)
    ∷ alter_column "jobs" "created_at" (date_time false) (some (date_time true)) (some true)
    ∷ alter_column "jobs" "result_data" jsonb none (some true)
    ∷ alter_column "jobs" "status" (string none) none (some true)
    ∷ drop_column "jobs" "file_id"
    ∷ drop_column "file_metadata" "updated_at"
    ∷ drop_column "file_metadata" "created_at"
    ∷ drop_column "file_metadata" "bucket"
    ∷ drop_column "file_metadata" "storage_location"
    ∷ drop_column "file_metadata" "type"
    ∷ alter_column "audit_logs" "timestamp" (date_time false) (some (date_time true)) (some true)
    ∷ []

abbrev pub upgrade_add_auth_tables : List Op
upgrade_add_auth_tables =
    create_table "developers"
      (column "id" uuid false
        ∷ column "email" (string (some 255)) false
        ∷ column "password" (string (some 255)) false
        ∷ column "name" (string (some 255)) false
        ∷ column "plan" (string (some 50)) false
        ∷ column "is_active" boolean false
        ∷ column_now "created_at" (date_time false) false
        ∷ column_now "updated_at" (date_time false) false
        ∷ [])
      []
    ∷ create_index "ix_dunno_what_developers_email" "developers" "email" true
    ∷ create_table "api_keys"
        (column "id" uuid false
          ∷ column "key_hash" (string none) false
          ∷ column "name" (string (some 255)) false
          ∷ column "developer_id" uuid false
          ∷ column "is_active" boolean false
          ∷ column "last_used_at" (date_time false) true
          ∷ column_now "created_at" (date_time false) false
          ∷ [])
        (key "developer_id" "developers" ∷ [])
    ∷ create_index "ix_dunno_what_api_keys_key_hash" "api_keys" "key_hash" true
    ∷ create_table "refresh_tokens"
        (column "id" uuid false
          ∷ column "token" (string none) false
          ∷ column "developer_id" uuid false
          ∷ column "is_revoked" boolean false
          ∷ column "expires_at" (date_time false) false
          ∷ column_now "created_at" (date_time false) false
          ∷ [])
        (key "developer_id" "developers" ∷ [])
    ∷ create_index "ix_dunno_what_refresh_tokens_token" "refresh_tokens" "token" true
    ∷ []

abbrev pub downgrade_add_auth_tables : List Op
downgrade_add_auth_tables =
    drop_index "ix_dunno_what_refresh_tokens_token" "refresh_tokens"
    ∷ drop_table "refresh_tokens"
    ∷ drop_index "ix_dunno_what_api_keys_key_hash" "api_keys"
    ∷ drop_table "api_keys"
    ∷ drop_index "ix_dunno_what_developers_email" "developers"
    ∷ drop_table "developers"
    ∷ []

abbrev pub upgrade_nullable_upload_id : List Op
upgrade_nullable_upload_id = alter_column "jobs" "upload_id" (string none) none (some false) ∷ []

abbrev pub upgrade_remove_job_type : List Op
upgrade_remove_job_type = drop_column "jobs" "job_type" ∷ []

abbrev pub upgrade_remove_nullability : List Op
upgrade_remove_nullability = alter_column "jobs" "result_data" jsonb none (some true) ∷ []

abbrev pub upgrade_add_timezone : List Op
upgrade_add_timezone =
    alter_column "refresh_tokens" "expires_at" (date_time false) (some (date_time true)) none ∷ []

abbrev pub upgrade_add_display_prefix : List Op
upgrade_add_display_prefix =
    add_column "api_keys" (column "display_prefix" (string (some 255)) false) ∷ []

abbrev pub upgrade_add_developer_id : List Op
upgrade_add_developer_id =
    add_column "file_metadata" (column "developer_id" uuid false)
    ∷ create_index "ix_dunno_what_file_metadata_developer_id" "file_metadata" "developer_id" false
    ∷ []

abbrev pub upgrade_add_webhook : List Op
upgrade_add_webhook =
    add_column "developers" (column "webhook_url" (string (some 2048)) true)
    ∷ add_column "developers" (column "webhook_secret" (string (some 255)) true)
    ∷ []

abbrev pub upgrade : Revision → List Op
upgrade initial_tables = upgrade_initial_tables
upgrade nullable_upload_id = upgrade_nullable_upload_id
upgrade refined_models = upgrade_refined_models
upgrade remove_job_type = upgrade_remove_job_type
upgrade remove_nullability = upgrade_remove_nullability
upgrade add_auth_tables = upgrade_add_auth_tables
upgrade add_timezone = upgrade_add_timezone
upgrade add_display_prefix = upgrade_add_display_prefix
upgrade add_developer_id = upgrade_add_developer_id
upgrade add_webhook = upgrade_add_webhook

abbrev pub downgrade_nullable_upload_id : List Op
downgrade_nullable_upload_id = alter_column "jobs" "upload_id" (string none) none (some true) ∷ []

abbrev pub downgrade_remove_job_type : List Op
downgrade_remove_job_type = add_column "jobs" (column "job_type" (string none) false) ∷ []

abbrev pub downgrade_remove_nullability : List Op
downgrade_remove_nullability = alter_column "jobs" "result_data" jsonb none (some false) ∷ []

abbrev pub downgrade_add_timezone : List Op
downgrade_add_timezone =
    alter_column "refresh_tokens" "expires_at" (date_time true) (some (date_time false)) none ∷ []

abbrev pub downgrade_add_display_prefix : List Op
downgrade_add_display_prefix = drop_column "api_keys" "display_prefix" ∷ []

abbrev pub downgrade_add_developer_id : List Op
downgrade_add_developer_id =
    drop_index "ix_dunno_what_file_metadata_developer_id" "file_metadata"
    ∷ drop_column "file_metadata" "developer_id"
    ∷ []

abbrev pub downgrade_add_webhook : List Op
downgrade_add_webhook =
    drop_column "developers" "webhook_secret" ∷ drop_column "developers" "webhook_url" ∷ []

abbrev pub downgrade : Revision → List Op
downgrade initial_tables = downgrade_initial_tables
downgrade nullable_upload_id = downgrade_nullable_upload_id
downgrade refined_models = downgrade_refined_models
downgrade remove_job_type = downgrade_remove_job_type
downgrade remove_nullability = downgrade_remove_nullability
downgrade add_auth_tables = downgrade_add_auth_tables
downgrade add_timezone = downgrade_add_timezone
downgrade add_display_prefix = downgrade_add_display_prefix
downgrade add_developer_id = downgrade_add_developer_id
downgrade add_webhook = downgrade_add_webhook
