-- ===== src/Tests/Migrations.antt =====
-- Scenarios of the migrations: a database that is the list of the names of what was added last.
use filo_j.Prelude.{
  String, ◌≡◌, refl, sym, ap, ◌∙◌, Option, none, some, List, [], ◌∷◌, Result, ok, err, ◌==◌,
  if◌then◌else◌, eq_refl, arith,
}
use filo_j.Shared.Errors.{Exn, exn, other_error}
use filo_j.Migrations.Op.{
  Op, create_table, drop_table, create_index, drop_index, add_column, drop_column, alter_column,
  create_foreign_key, drop_constraint, inverse, Alembic, AlembicLaws, run,
}
use filo_j.Migrations.Versions.{add_webhook, downgrade}
use filo_j.Migrations.Laws.{downgrade-upgrade}

abbrev drop_name : String → List String → Result Exn (List String)
drop_name name [] = err (exn other_error "does not exist")
drop_name name (x ∷ xs) = if x == name then ok xs else err (exn other_error "does not exist")

abbrev apply_op : Op → List String → Result Exn (List String)
apply_op (create_table table columns keys) d = ok (table ∷ d)
apply_op (drop_table table) d = drop_name table d
apply_op (create_index name table column unique) d = ok (name ∷ d)
apply_op (drop_index name table) d = drop_name name d
apply_op (add_column table column) d = ok (column.name ∷ d)
apply_op (drop_column table name) d = drop_name name d
apply_op _ d = ok d

abbrev alembic : Alembic
alembic = record { Database = List String; apply = apply_op }

dropped : (name : String) (d : List String) → drop_name name (name ∷ d) ≡ ok d
dropped name d = rw (eq_refl name) refl

abbrev db_of : List String → Result Exn (List String) → List String
db_of d (ok d') = d'
db_of d (err e) = d

abbrev op_of : Op → Option Op → Op
op_of op none = op
op_of op (some op') = op'

abbrev added : List String → Result Exn (List String)
added d = ok d

-- An operation that adds a name, and one that drops it
back_to :
    (name : String) (drop op' : Op) (d d' : List String)
    → ((xs : List String) → apply_op drop xs ≡ drop_name name xs)
    → some drop ≡ some op'
    → added (name ∷ d) ≡ ok d'
    → apply_op op' d' ≡ ok d
back_to name drop op' d d' drops i h =
    sym (ap (λ o. apply_op (op_of drop o) d') i)
    ∙ (drops d' ∙ (sym (ap (λ r. drop_name name (db_of d r)) h) ∙ dropped name d))

apply_inverse :
    (op op' : Op) (d d' : List String)
    → inverse op ≡ some op'
    → apply_op op d ≡ ok d'
    → apply_op op' d' ≡ ok d
apply_inverse (create_table table columns keys) op' d d' i h =
    back_to table (drop_table table) op' d d' (λ xs. refl) i h
apply_inverse (create_index name table column unique) op' d d' i h =
    back_to name (drop_index name table) op' d d' (λ xs. refl) i h
apply_inverse (add_column table column) op' d d' i h =
    back_to column.name (drop_column table column.name) op' d d' (λ xs. refl) i h
apply_inverse (drop_table table) op' d d' i h = ground (arith, i)
apply_inverse (drop_index name table) op' d d' i h = ground (arith, i)
apply_inverse (drop_column table name) op' d d' i h = ground (arith, i)
apply_inverse (alter_column table name existing type nullable) op' d d' i h = ground (arith, i)
apply_inverse (create_foreign_key table key) op' d d' i h = ground (arith, i)
apply_inverse (drop_constraint name table) op' d d' i h = ground (arith, i)

abbrev laws : AlembicLaws alembic
laws = record { apply_inverse = apply_inverse }

downgrade-upgrade_example :
    run alembic (downgrade add_webhook) ("webhook_secret" ∷ "webhook_url" ∷ "developers" ∷ [])
    ≡ ok ("developers" ∷ [])
downgrade-upgrade_example =
    downgrade-upgrade alembic laws add_webhook (downgrade add_webhook) ("developers" ∷ [])
      ("webhook_secret" ∷ "webhook_url" ∷ "developers" ∷ []) refl refl
