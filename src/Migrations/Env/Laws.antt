-- ===== src/Migrations/Env/Laws.antt =====
-- database/migrations/env.py: the address of the database passes through the configuration unchanged.
use filo_j.Prelude.{
  ℕ, ◌≡◌, refl, ap, ◌∙◌, Bool-cases, inl, inr, true, false, Option, some, List, [], ◌∷◌, nat_eq,
  nat_eq→eq, arith,
}
use filo_j.Migrations.Env.{
  percent, escape, prepend, interpolate, Variables, db_url, configure, engine_url,
  configure_offline,
}

-- What is no percent sign stands for itself.
interpolate-other :
    (reference : List ℕ → Option (List ℕ)) (c : ℕ) (value : List ℕ)
    → nat_eq c percent ≡ false
    → interpolate reference (c ∷ value) ≡ prepend c (interpolate reference value)
interpolate-other reference c [] h = ground (arith, h)
interpolate-other reference c (d ∷ value) h = ground (arith, h)

pub interpolate-escape :
    (reference : List ℕ → Option (List ℕ)) (url : List ℕ)
    → interpolate reference (escape url) ≡ some url
interpolate-escape reference [] = refl
interpolate-escape reference (c ∷ url) = elim (Bool-cases (nat_eq c percent)) [
  | inl e ↦ ground (arith, e, nat_eq→eq c percent e, interpolate-escape reference url)
  | inr e ↦ rw e (
      interpolate-other reference c (escape url) e
      ∙ ap (prepend c) (interpolate-escape reference url))
]

-- Whatever the address of the database is, percent signs included, the one that is read from the
-- configuration, offline and for the engine, is the variable `DATABASE_URL`, or the local one.
pub engine_url-db_url :
    (reference : List ℕ → Option (List ℕ)) (v : Variables)
    → (engine_url reference v ≡ some (db_url v))
      × ((configure reference v true).url ≡ some (db_url v))
unfolding engine_url configure configure_offline
engine_url-db_url reference v =
    (interpolate-escape reference (db_url v), interpolate-escape reference (db_url v))
