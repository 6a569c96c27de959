-- ===== src/Shared/Config.antt =====
-- shared/config.py and shared/plan_limits.py
use filo_j.Prelude.{ℕ, ◌*◌, String, List, [], ◌∷◌}

-- `ALLOWED_FILES`
abbrev pub allowed_files : List (String × String)
allowed_files =
    (".pdf", "pdf")
    ∷ (".png", "image")
    ∷ (".jpeg", "image")
    ∷ (".ppt", "ppt")
    ∷ (".mkv", "video")
    ∷ (".txt", "text")
    ∷ []

pub record PlanLimits : Type 0 where
  pub requests_per_hour : ℕ
  pub max_file_size_bytes : ℕ
  pub storage_quota_bytes : ℕ

-- `PLAN_LIMITS`
abbrev pub plan_limits : List (String × PlanLimits)
plan_limits =
    (
      "free",
      record {
        requests_per_hour = 15;
        max_file_size_bytes = 10 * 1024 * 1024;
        storage_quota_bytes = 1 * 1024 * 1024 * 1024;
      },
    )
    ∷ (
      "pro",
      record {
        requests_per_hour = 5000;
        max_file_size_bytes = 100 * 1024 * 1024;
        storage_quota_bytes = 50 * 1024 * 1024 * 1024;
      },
    )
    ∷ []
