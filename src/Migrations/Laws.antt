-- ===== src/Migrations/Laws.antt =====
-- database/migrations/versions: which downgrades take back their upgrade.
use filo_j.Prelude.{
  ◌≡◌, refl, sym, ap, ◌∙◌, subst, Option, none, some, List, [], ◌∷◌, ◌++◌, Result, ok, err, arith,
}
use filo_j.Shared.Errors.{Exn}
use filo_j.Migrations.Op.{Op, inverse, undo, undo_also, Alembic, AlembicLaws, bind, run}
use filo_j.Migrations.Versions.{
  Revision, upgrade, downgrade, initial_tables, nullable_upload_id, refined_models, remove_job_type,
  remove_nullability, add_auth_tables, add_timezone, add_display_prefix, add_developer_id,
  add_webhook,
}

abbrev listed : Option (List Op) → List Op
listed none = []
listed (some ops) = ops

module _ (a : Alembic) where
  run-append :
      (xs ys : List Op) (d : a.Database) → run a (xs ++ ys) d ≡ bind a (run a xs d) (run a ys)
  run-append [] ys d = refl
  run-append (op ∷ xs) ys d = then_append (a.apply op d) (λ d'. run-append xs ys d')
    where
      then_append :
          (x : Result Exn a.Database)
          → ((d' : a.Database) → run a (xs ++ ys) d' ≡ bind a (run a xs d') (run a ys))
          → bind a x (run a (xs ++ ys)) ≡ bind a (bind a x (run a xs)) (run a ys)
      then_append (ok d') rest = rest d'
      then_append (err e) rest = refl

  module _ (laws : AlembicLaws a) where
    run-undo :
        (ops back : List Op) (d d' : a.Database)
        → undo ops ≡ some back
        → run a ops d ≡ ok d'
        → run a back d' ≡ ok d
    run-undo [] back d d' u h = ground (arith, u, h)
    run-undo (op ∷ ops) back d d' u h =
        step (inverse op) (undo ops) (a.apply op d) refl refl refl u h
          (λ rest d1. run-undo ops rest d1 d')
      where
        step :
            (x : Option Op) (y : Option (List Op)) (z : Result Exn a.Database)
            → inverse op ≡ x
            → undo ops ≡ y
            → a.apply op d ≡ z
            → undo_also x y ≡ some back
            → bind a z (run a ops) ≡ ok d'
            → ((rest : List Op) (d1 : a.Database)
                → undo ops ≡ some rest
                → run a ops d1 ≡ ok d'
                → run a rest d' ≡ ok d1)
            → run a back d' ≡ ok d
        step (some op') (some rest) (ok d1) ex ey ez u h undone =
            sym (ap (λ b. run a (listed b) d') u)
            ∙ (run-append rest (op' ∷ []) d'
                ∙ (ap (λ x. bind a x (run a (op' ∷ []))) (undone rest d1 ey h)
                    ∙ ap (λ x. bind a x (run a [])) (laws.apply_inverse op op' d d1 ex ez)))
        step (some op') (some rest) (err e) ex ey ez u h undone = ground (arith, h)
        step (some op') none z ex ey ez u h undone = ground (arith, u)
        step none y z ex ey ez u h undone = ground (arith, u)

    -- The downgrade of a revision that only adds is the list that takes its upgrade back.
    undo-downgrade :
        (r : Revision) (back : List Op) → undo (upgrade r) ≡ some back → back ≡ downgrade r
    undo-downgrade initial_tables back u = sym (ap listed u)
    undo-downgrade nullable_upload_id back u = ground (arith, u)
    undo-downgrade refined_models back u = ground (arith, u)
    undo-downgrade remove_job_type back u = ground (arith, u)
    undo-downgrade remove_nullability back u = ground (arith, u)
    undo-downgrade add_auth_tables back u = sym (ap listed u)
    undo-downgrade add_timezone back u = ground (arith, u)
    undo-downgrade add_display_prefix back u = sym (ap listed u)
    undo-downgrade add_developer_id back u = sym (ap listed u)
    undo-downgrade add_webhook back u = sym (ap listed u)

    -- A revision whose upgrade only adds tables, columns and indexes can be taken back: where the
    -- upgrade returns, the downgrade returns too and gives back the database that was. To drop what was
    -- just added restores the database, which is what alembic promises.
    pub downgrade-upgrade :
        (r : Revision) (back : List Op) (d d' : a.Database)
        → undo (upgrade r) ≡ some back
        → run a (upgrade r) d ≡ ok d'
        → run a (downgrade r) d' ≡ ok d
    downgrade-upgrade r back d d' u h =
        subst (λ ops. run a ops d' ≡ ok d) (undo-downgrade r back u)
          (run-undo (upgrade r) back d d' u h)
