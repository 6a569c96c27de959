-- ===== src/Prelude/Rules.antt =====
-- Rules for code that mutates a state and may raise. A predicate on how a run ends is proved of a
-- sequence from what is known of its first part, and a relation between the states before and after
-- that is reflexive and transitive is kept by a sequence if it is kept by the parts.
use mathlib.Core.Path.{◌≡◌, refl, ap, ◌∙◌}
use mathlib.Core.Bool.{Bool, true, false}
use filo_j.Prelude.Tests.{if◌then◌else◌}
use filo_j.Prelude.Monad.{Result, ok, err, Exec, ◌>>=◌, ◌>>◌, catch, raise_if}

module _ {S E A B : Type 0} where
  -- `Q` is what is known of the first part `p`.
  pub bind-rule :
      (P : Result E B × S → Type 0) (Q : Result E A × S → Type 0) (p : Result E A × S)
      (f : A → Exec S E B) (s0 : S)
      → Q p
      → ((e : E) (s : S) → Q (err e, s) → P (err e, s))
      → ((a : A) (s : S) → Q (ok a, s) → P (f a s))
      → P (((λ (_ : S). p) >>= f) s0)
  bind-rule P Q (ok a, s) f s0 q failed passed = passed a s q
  bind-rule P Q (err e, s) f s0 q failed passed = failed e s q

module _ {S E A : Type 0} where
  pub catch-rule :
      (P Q : Result E A × S → Type 0) (p : Result E A × S) (handler : E → Exec S E A) (s0 : S)
      → Q p
      → ((e : E) (s : S) → Q (err e, s) → P (handler e s))
      → ((a : A) (s : S) → Q (ok a, s) → P (ok a, s))
      → P (catch (λ (_ : S). p) handler s0)
  catch-rule P Q (ok a, s) handler s0 q failed passed = passed a s q
  catch-rule P Q (err e, s) handler s0 q failed passed = failed e s q

  pub raise_if-rule :
      (P : Result E A × S → Type 0) (b : Bool) (e : E) (f : Exec S E A) (s : S)
      → (b ≡ true → P (err e, s))
      → (b ≡ false → P (f s))
      → P ((raise_if b e >> f) s)
  raise_if-rule P true e f s failed passed = failed refl
  raise_if-rule P false e f s failed passed = passed refl

-- A relation that a run keeps
abbrev pub Keeps : {S E A : Type 0} → (S → S → Type 0) → Exec S E A → Type 0
Keeps {S} R m = (s : S) → R s (m s).1

module _ {S E : Type 0} (R : S → S → Type 0) (trans : (a b c : S) → R a b → R b c → R a c) where
  pub bind-Keeps :
      {A B : Type 0} (m : Exec S E A) (f : A → Exec S E B)
      → Keeps R m
      → ((s : S) → R s s)
      → ((a : A) → Keeps R (f a))
      → Keeps R (m >>= f)
  bind-Keeps {B = B} m f first same rest s =
      bind-rule (λ (r : Result E B × S). R s r.1) (λ r. R s r.1) (m s) f s (first s) (λ e s' h. h)
        (λ a s' h. trans s s' (f a s').1 h (rest a s'))

  pub catch-Keeps :
      {A : Type 0} (m : Exec S E A) (handler : E → Exec S E A)
      → Keeps R m
      → ((e : E) → Keeps R (handler e))
      → Keeps R (catch m handler)
  catch-Keeps {A = A} m handler first rest s =
      catch-rule (λ (r : Result E A × S). R s r.1) (λ r. R s r.1) (m s) handler s (first s)
        (λ e s' h. trans s s' (handler e s').1 h (rest e s')) (λ a s' h. h)

-- An invariant that a run preserves
abbrev pub Preserves : {S E A : Type 0} → (S → Type 0) → Exec S E A → Type 0
Preserves {S} I m = (s : S) → I s → I (m s).1

module _ {S E : Type 0} (I : S → Type 0) where
  pub bind-Preserves :
      {A B : Type 0} (m : Exec S E A) (f : A → Exec S E B)
      → Preserves I m
      → ((a : A) → Preserves I (f a))
      → Preserves I (m >>= f)
  bind-Preserves {B = B} m f first rest s h =
      bind-rule (λ (r : Result E B × S). I r.1) (λ r. I r.1) (m s) f s (first s h) (λ e s' h'. h')
        (λ a s' h'. rest a s' h')

  pub catch-Preserves :
      {A : Type 0} (m : Exec S E A) (handler : E → Exec S E A)
      → Preserves I m
      → ((e : E) → Preserves I (handler e))
      → Preserves I (catch m handler)
  catch-Preserves {A = A} m handler first rest s h =
      catch-rule (λ (r : Result E A × S). I r.1) (λ r. I r.1) (m s) handler s (first s h)
        (λ e s' h'. rest e s' h') (λ a s' h'. h')

-- A property of both branches
pub if-rule :
    {X : Type 0} (P : X → Type 0) (b : Bool) (x y : X)
    → (b ≡ true → P x)
    → (b ≡ false → P y)
    → P (if b then x else y)
if-rule P true x y on_true on_false = on_true refl
if-rule P false x y on_true on_false = on_false refl

-- A first part that returns, and the rest
pub bind-ok :
    {S E A B : Type 0} (p : Result E A × S) (f : A → Exec S E B) (s0 s : S) (a : A)
    {r : Result E B × S}
    → p ≡ (ok a, s)
    → f a s ≡ r
    → ((λ (_ : S). p) >>= f) s0 ≡ r
bind-ok p f s0 s a e h = ap (λ p. ((λ _. p) >>= f) s0) e ∙ h

-- A guard that does not raise
pub raise_if-passed :
    {S E B : Type 0} (b : Bool) (e : E) (f : Exec S E B) (s : S)
    → b ≡ false
    → (raise_if b e >> f) s ≡ f s
raise_if-passed false e f s h = refl
raise_if-passed true e f s h = absurd (cc)

-- A first part that raises
pub bind-err :
    {S E A B : Type 0} (p : Result E A × S) (f : A → Exec S E B) (s0 s : S) (e : E)
    → p ≡ (err e, s)
    → ((λ (_ : S). p) >>= f) s0 ≡ (err e, s)
bind-err p f s0 s e h = ap (λ p. ((λ _. p) >>= f) s0) h
