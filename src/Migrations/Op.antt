-- ===== src/Migrations/Op.antt =====
-- database/migrations: the calls of alembic's `op` that the revisions make, as data. What they do to a
-- database is a parameter. All of them work on one schema, `dunno_what`, which is left out.
use filo_j.Prelude.{ℕ, String, Bool, Option, none, some, List, [], ◌∷◌, ◌++◌, Result, ok, err, ◌≡◌}
use filo_j.Shared.Errors.{Exn}

-- `String()` and `VARCHAR()` are one type, and so are `DateTime(timezone=…)` and `TIMESTAMP(…)`.
pub data ColumnType : Type 0 where
  uuid text boolean jsonb : ColumnType
  string : Option ℕ → ColumnType
  date_time : Bool → ColumnType

pub record Column : Type 0 where
  pub name : String
  pub type : ColumnType
  pub nullable : Bool
  pub server_default : Option String

-- The column, and the column of another table that it refers to
pub record ForeignKey : Type 0 where
  pub column : String
  pub table : String
  pub target : String

-- A table that is created has the primary key `id`.
pub data Op : Type 0 where
  create_table : String → List Column → List ForeignKey → Op
  drop_table : String → Op
  -- Name, table, column, and whether it is unique
  create_index : String → String → String → Bool → Op
  drop_index : String → String → Op
  add_column : String → Column → Op
  drop_column : String → String → Op
  -- Table, column, the type it has, and the type and the nullability it gets
  alter_column : String → String → ColumnType → Option ColumnType → Option Bool → Op
  create_foreign_key : String → ForeignKey → Op
  -- A constraint by its name, if it is given one
  drop_constraint : Option String → String → Op

-- What removes again what an operation adds
abbrev pub inverse : Op → Option Op
inverse (create_table table columns keys) = some (drop_table table)
inverse (create_index name table column unique) = some (drop_index name table)
inverse (add_column table column) = some (drop_column table column.name)
inverse _ = none

abbrev pub undo_also : Option Op → Option (List Op) → Option (List Op)
undo_also (some op) (some ops) = some (ops ++ op ∷ [])
undo_also _ _ = none

-- What removes what a list of operations adds, the last first, if adding is all that they do
abbrev pub undo : List Op → Option (List Op)
undo [] = some []
undo (op ∷ ops) = undo_also (inverse op) (undo ops)

pub record Alembic : Type 1 where
  pub Database : Type 0
  pub apply : Op → Database → Result Exn Database

-- To drop what was just added gives back the database that was.
pub record AlembicLaws (a : Alembic) : Type 0 where
  pub apply_inverse :
      (op op' : Op) (d d' : a.Database)
      → inverse op ≡ some op'
      → a.apply op d ≡ ok d'
      → a.apply op' d' ≡ ok d

module _ (a : Alembic) where
  abbrev pub bind :
      Result Exn a.Database → (a.Database → Result Exn a.Database) → Result Exn a.Database
  bind (ok d) f = f d
  bind (err e) f = err e

  -- `upgrade()` or `downgrade()`, which stops at the first operation that raises
  abbrev pub run : List Op → a.Database → Result Exn a.Database
  run [] d = ok d
  run (op ∷ ops) d = bind (a.apply op d) (run ops)
