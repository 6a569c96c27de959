-- ===== src/Shared/Rows/Laws.antt =====
-- What a query for one row finds.
use filo_j.Prelude.{
  ◌≡◌, refl, inl, inr, Bool, true, Option, none, some, List, [], ◌∷◌, select, Result, ok, err,
  Bool-cases, arith,
}
use filo_j.Shared.Errors.{Exn}
use filo_j.Shared.World.{World, Faults, tick}
use filo_j.Shared.World.Laws.{SameRows}
use filo_j.Shared.Rows.{one_or_none, first_row, select_one, select_first}

-- A row that was found passes the test.
abbrev pub Passes : {A : Type 0} → (A → Bool) → Result Exn (Option A) → Type 0
Passes test (ok (some x)) = test x ≡ true
Passes test (ok none) = Unit
Passes test (err e) = Unit

abbrev AllPass : {A : Type 0} → (A → Bool) → List A → Type 0
AllPass test [] = Unit
AllPass test (x ∷ xs) = (test x ≡ true) × AllPass test xs

select-AllPass : {A : Type 0} (test : A → Bool) (xs : List A) → AllPass test (select test xs)
select-AllPass test [] = tt
select-AllPass test (x ∷ xs) = elim (Bool-cases (test x)) [
  | inl e ↦ rw e (e, select-AllPass test xs)
  | inr e ↦ rw e (select-AllPass test xs)
]

one_or_none-Passes :
    {A : Type 0} (test : A → Bool) (xs : List A) → AllPass test xs → Passes test (one_or_none xs)
one_or_none-Passes test [] h = tt
one_or_none-Passes test (x ∷ []) h = h.0
one_or_none-Passes test (x ∷ y ∷ xs) h = tt

found-Passes :
    {A : Type 0} (test : A → Bool) (xs : List A) (x : Option Exn) (w : World)
    → AllPass test xs
    → (P : Result Exn (Option A) × World → Type 0)
    → ((r : Result Exn (Option A)) → Passes test r → P (r, tick w))
    → P (elim x as (λ _. Result Exn (Option A) × World) [
      | some e ↦ (err e, tick w)
      | none ↦ (one_or_none xs, tick w)
    ])
found-Passes test xs (some e) w h P then_P = then_P (err e) tt
found-Passes test xs none w h P then_P = then_P (one_or_none xs) (one_or_none-Passes test xs h)

pub select_one-Passes :
    {A : Type 0} (fault : Faults) (rows : World → List A) (test : A → Bool) (w : World)
    → SameRows w (select_one fault rows test w).1 × Passes test (select_one fault rows test w).0
unfolding select_one
select_one-Passes fault rows test w =
    found-Passes test (select test (rows w)) (fault w.calls) w (select-AllPass test (rows w))
      (λ r. SameRows w r.1 × Passes test r.0) (λ r p. ((refl, refl, refl), p))

only-row :
    {A : Type 0} (xs : List A) (x : A)
    → ◌≡◌ {A = Result Exn (Option A)} (one_or_none xs) (ok (some x))
    → xs ≡ x ∷ []
only-row [] x h = ground arith
only-row (y ∷ []) x h = ground arith
only-row (y ∷ z ∷ xs) x h = ground arith

-- A row that was found is the only one that passes the test.
abbrev pub FindsOne : {A : Type 0} → (A → Bool) → List A → Result Exn (Option A) → Type 0
FindsOne test rows (ok (some x)) = select test rows ≡ x ∷ []
FindsOne test rows (ok none) = Unit
FindsOne test rows (err e) = Unit

one_or_none-FindsOne :
    {A : Type 0} (test : A → Bool) (rows : List A) (r : Result Exn (Option A))
    → one_or_none (select test rows) ≡ r
    → FindsOne test rows r
one_or_none-FindsOne test rows (ok (some x)) h = only-row (select test rows) x h
one_or_none-FindsOne test rows (ok none) h = tt
one_or_none-FindsOne test rows (err e) h = tt

pub select_one-FindsOne :
    {A : Type 0} (fault : Faults) (rows : World → List A) (test : A → Bool) (w : World)
    → SameRows w (select_one fault rows test w).1
      × FindsOne test (rows w) (select_one fault rows test w).0
unfolding select_one
select_one-FindsOne {A = A} fault rows test w = looked (fault w.calls)
  where
    looked :
        (x : Option Exn)
        → let r = elim x as (λ _. Result Exn (Option A) × World) [
          | some e ↦ (err e, tick w)
          | none ↦ (one_or_none (select test (rows w)), tick w)
        ] in
          SameRows w r.1 × FindsOne test (rows w) r.0
    looked (some e) = ((refl, refl, refl), tt)
    looked none = ((refl, refl, refl), one_or_none-FindsOne test (rows w) _ refl)

-- What is found is the first row that passes the test.
abbrev pub FindsFirst : {A : Type 0} → (A → Bool) → List A → Result Exn (Option A) → Type 0
FindsFirst test rows (ok x) = first_row (select test rows) ≡ x
FindsFirst test rows (err e) = Unit

pub select_first-FindsFirst :
    {A : Type 0} (fault : Faults) (rows : World → List A) (test : A → Bool) (w : World)
    → SameRows w (select_first fault rows test w).1
      × FindsFirst test (rows w) (select_first fault rows test w).0
unfolding select_first
select_first-FindsFirst {A = A} fault rows test w = looked (fault w.calls)
  where
    looked :
        (x : Option Exn)
        → let r = elim x as (λ _. Result Exn (Option A) × World) [
          | some e ↦ (err e, tick w)
          | none ↦ (ok (first_row (select test (rows w))), tick w)
        ] in
          SameRows w r.1 × FindsFirst test (rows w) r.0
    looked (some e) = ((refl, refl, refl), tt)
    looked none = ((refl, refl, refl), refl)

pub select_first-SameRows :
    {A : Type 0} (fault : Faults) (rows : World → List A) (test : A → Bool) (w : World)
    → SameRows w (select_first fault rows test w).1
select_first-SameRows fault rows test w = (select_first-FindsFirst fault rows test w).0
