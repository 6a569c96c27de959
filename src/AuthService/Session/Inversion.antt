-- ===== src/AuthService/Session/Inversion.antt =====
-- What a handler of auth_service that returns has passed: the guards and the queries of its session.
use filo_j.Prelude.{
  suc, ◌≡◌, refl, Bool, true, false, Option, none, some, List, Result, ok, err, Exec, raise_if,
  select, catch, raise, ◌≢◌, ◌>>=◌, ◌>>◌,
}
use filo_j.Shared.Errors.{Exn}
use filo_j.Shared.World.{Faults}
use filo_j.AuthService.Models.{Tables}
use filo_j.AuthService.Session.{Session, one_or_none, query}

-- A guard that was passed
pub raise_if-passed :
    {A : Type 0} {r : A} (b : Bool) (e : Exn) (f : Exec Session Exn A) (s : Session)
    → ((raise_if b e >> f) s).0 ≡ ok r
    → b ≡ false × (raise_if b e >> f) s ≡ f s
raise_if-passed true e f s h = absurd (cc)
raise_if-passed false e f s h = (refl, refl)

abbrev asked : {A : Type 0} → Option Exn → Result Exn A → Exec Session Exn A
asked x y s = elim x [ some e ↦ (err e, s) | none ↦ (y, s) ]

asked-answered :
    {A B : Type 0} {r : B} (x : Option Exn) (y : Result Exn A) (f : A → Exec Session Exn B)
    (s : Session)
    → ((asked x y >>= f) s).0 ≡ ok r
    → (a : A) × y ≡ ok a × (asked x y >>= f) s ≡ f a s
asked-answered (some e) y f s h = absurd (cc)
asked-answered none (err e) f s h = absurd (cc)
asked-answered none (ok a) f s h = (a, refl, refl)

-- A query that answered
pub query-answered :
    {A B : Type 0} {r : B} (fault : Faults) (rows : Tables → List A) (test : A → Bool)
    (f : Option A → Exec Session Exn B) (s : Session)
    → ((query fault rows test >>= f) s).0 ≡ ok r
    → (a : Option A) × one_or_none (select test (rows s.tables)) ≡ ok a
      × (query fault rows test >>= f) s ≡ f a (record s { calls = suc s.calls })
query-answered fault rows test f s h =
    asked-answered (fault s.calls) (one_or_none (select test (rows s.tables))) f
      (record s { calls = suc s.calls }) h

-- What raises does not answer.
then_raise-fails :
    {A : Type 0} {r : A} (q : Result Exn (Unit {0}) × Session) (e : Exn) (s : Session)
    → (((λ (_ : Session). q) >> raise {A = A} e) s).0 ≢ ok r
then_raise-fails (ok _, s') e s h = absurd (cc)
then_raise-fails (err e', s') e s h = absurd (cc)

-- A `try` whose `except` rolls back and raises again
pub reraise-passed :
    {A : Type 0} {r : A} (p : Result Exn A × Session) (after : Exec Session Exn (Unit {0}))
    (s : Session)
    → (catch (λ _. p) (λ e. after >> raise e) s).0 ≡ ok r
    → catch (λ _. p) (λ e. after >> raise e) s ≡ p
reraise-passed (ok a, s') after s h = refl
reraise-passed (err e, s') after s h = absurd (then_raise-fails (after s') e s' h)
