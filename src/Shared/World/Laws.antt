-- ===== src/Shared/World/Laws.antt =====
-- Rules for an awaited call, alone and before the rest of the code.
use filo_j.Prelude.{
  Option, none, some, ◌≡◌, ◌∙◌, refl, sym, ap, All, All-append, append-nil, append_assoc, List,
  ◌++◌, ◌∷◌, [], Result, ok, err, Exec, ◌>>◌,
}
use filo_j.Prelude.Rules.{Keeps}
use filo_j.Shared.Errors.{Exn}
use filo_j.Shared.World.{World, Published, Faults, tick, call}

-- The rows and the messages of two states are the same.
abbrev pub SameRows : World → World → Type 0
SameRows w w' = (w'.jobs ≡ w.jobs) × (w'.files ≡ w.files) × (w'.published ≡ w.published)

pub SameRows-trans : (a b c : World) → SameRows a b → SameRows b c → SameRows a c
SameRows-trans a b c h k = (k.0 ∙ h.0, k.1 ∙ h.1, k.2 ∙ h.2)

-- One message more, and the same rows
abbrev pub Sent : Published → World → World → Type 0
Sent m w w' = (w'.jobs ≡ w.jobs) × (w'.files ≡ w.files) × (w'.published ≡ w.published ++ m ∷ [])

-- What sends the message if it returns, and nothing if it raises
abbrev pub Sends : Published → World → Result Exn (Unit {0}) × World → Type 0
Sends m w (ok _, w') = Sent m w w'
Sends m w (err e, w') = SameRows w w'

answered :
    (P : Result Exn (Unit {0}) × World → Type 0) (x : Option Exn) (effect : World → World)
    (w : World)
    → ((e : Exn) → P (err e, tick w))
    → P (ok tt, effect (tick w))
    → P (elim x as (λ _. Result Exn (Unit {0}) × World) [
      | none ↦ (ok tt, effect (tick w))
      | some e ↦ (err e, tick w)
    ])
answered P (some e) effect w failed passed = failed e
answered P none effect w failed passed = passed

pub call-rule :
    (P : Result Exn (Unit {0}) × World → Type 0) (fault : Faults) (effect : World → World)
    (w : World)
    → ((e : Exn) → P (err e, tick w))
    → P (ok tt, effect (tick w))
    → P (call fault effect w)
call-rule P fault effect w failed passed = answered P (fault w.calls) effect w failed passed

after_call :
    {A : Type 0} (P : Result Exn A × World → Type 0) (x : Option Exn) (effect : World → World)
    (rest : Exec World Exn A) (w : World)
    → ((e : Exn) → P (err e, tick w))
    → P (rest (effect (tick w)))
    → P (
        ((λ (w : World). elim x as (λ _. Result Exn (Unit {0}) × World) [
          | none ↦ (ok tt, effect (tick w))
          | some e ↦ (err e, tick w)
        ])
            >> rest)
          w)
after_call P (some e) effect rest w failed passed = failed e
after_call P none effect rest w failed passed = passed

pub call-then :
    {A : Type 0} (P : Result Exn A × World → Type 0) (fault : Faults) (effect : World → World)
    (rest : Exec World Exn A) (w : World)
    → ((e : Exn) → P (err e, tick w))
    → P (rest (effect (tick w)))
    → P ((call fault effect >> rest) w)
call-then P fault effect rest w failed passed =
    after_call P (fault w.calls) effect rest w failed passed

-- A call whose effect spares the rows and the messages
pub call-SameRows :
    (fault : Faults) (effect : World → World)
    → ((w : World) → SameRows w (effect (tick w)))
    → Keeps SameRows (call fault effect)
call-SameRows fault effect same w =
    call-rule (λ r. SameRows w r.1) fault effect w (λ e. (refl, refl, refl)) (same w)

-- Messages were added, and each of them is one that may be.
abbrev pub Extends : (Published → Type 0) → List Published → List Published → Type 0
Extends may before after = (sent : List Published) × (after ≡ before ++ sent) × All may sent

pub Extends-refl : (may : Published → Type 0) (before : List Published) → Extends may before before
Extends-refl may before = ([], sym (append-nil before), tt)

pub Extends-one :
    (may : Published → Type 0) (a b c : List Published) (m : Published)
    → Extends may a b
    → may m
    → c ≡ b ++ m ∷ []
    → Extends may a c
Extends-one may a b c m (sent, e, all) ok_m more = (
  sent ++ m ∷ [],
  more ∙ (ap (λ ms. ms ++ m ∷ []) e ∙ append_assoc a sent (m ∷ [])),
  All-append may sent (m ∷ []) all (ok_m, tt),
)

pub Extends-trans :
    (may : Published → Type 0) (a b c : List Published)
    → Extends may a b
    → Extends may b c
    → Extends may a c
Extends-trans may a b c (sent, e, all) (more, e', all') = (
  sent ++ more,
  e' ∙ (ap (λ ms. ms ++ more) e ∙ append_assoc a sent more),
  All-append may sent more all all',
)
