-- ===== src/AuthService/Session.antt =====
-- The database session that `get_session` of shared/database.py hands to a request: what is
-- committed, the session's own view of the tables, and the refresh cookie of the response. The
-- unique columns are those of auth_service/models/auth.py. Any awaited call may raise, by its number.
pub mod Inversion
use filo_j.Prelude.{
  ℕ, suc, String, Bool, true, not, ◌&&◌, Option, none, some, List, [], ◌∷◌, map, elem, select,
  Result, ok, err, Exec, if◌then◌else◌,
}
use filo_j.Shared.Errors.{Exn, exn, integrity_error, multiple_results_found}
unfoldable pub use filo_j.Shared.Rows.{one_or_none}
use filo_j.Shared.World.{Faults}
use filo_j.AuthService.Models.{Developer, RefreshToken, ApiKey, Tables}

-- `cookie` is what the response does to the cookie `refresh_token`: nothing, delete it, or set it.
pub record Session : Type 0 where
  pub calls : ℕ
  pub committed : Tables
  pub tables : Tables
  pub cookie : Option (Option String)

-- A new request: it sees what is committed.
abbrev pub new_request : Session → Session
new_request s = record s { tables = s.committed; cookie = none }

abbrev pub is_unique : List String → Bool
is_unique [] = true
is_unique (x ∷ xs) = not (elem x xs) && is_unique xs

-- The constraints `unique=True`
abbrev pub is_consistent : Tables → Bool
is_consistent t =
    is_unique (map (λ (d : Developer). d.email) t.developers)
    && (is_unique (map (λ (k : RefreshToken). k.token) t.refresh_tokens)
        && is_unique (map (λ (k : ApiKey). k.key_hash) t.api_keys))

-- An assignment to the session's tables.
abbrev pub on_tables : (Tables → Tables) → Session → Session
on_tables f s = record s { tables = f s.tables }

module _ (fault : Faults) where
  abbrev pub awaited : {A : Type 0} → (Session → Result Exn A × Session) → Exec Session Exn A
  awaited f s = elim (fault s.calls) [
    | some e ↦ (err e, record s { calls = suc s.calls })
    | none ↦ f (record s { calls = suc s.calls })
  ]

  -- `(await db.execute(select(…).where(…))).scalar_one_or_none()`
  abbrev pub query : {A : Type 0} → (Tables → List A) → (A → Bool) → Exec Session Exn (Option A)
  query rows test = awaited (λ s. (one_or_none (select test (rows s.tables)), s))

  -- `await db.flush()`
  unfoldable pub flush : Exec Session Exn (Unit {0})
  flush = awaited (λ s.
      (if is_consistent s.tables then ok tt else err (exn integrity_error "unique violation"), s))

  -- `await db.commit()`
  unfoldable pub commit : Exec Session Exn (Unit {0})
  commit = awaited (λ s.
      if is_consistent s.tables
      then (ok tt, record s { committed = s.tables })
      else (err (exn integrity_error "unique violation"), s))

  -- `await db.rollback()`
  unfoldable pub rollback : Exec Session Exn (Unit {0})
  rollback = awaited (λ s. (ok tt, record s { tables = s.committed }))
