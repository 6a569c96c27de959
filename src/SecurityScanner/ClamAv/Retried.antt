-- ===== src/SecurityScanner/ClamAv/Retried.antt =====
-- security_scanner/clamav.py: what holds of every attempt holds of the call that tenacity retries.
use filo_j.Prelude.{
  ℕ, zero, suc, ◌≡◌, refl, sym, subst, Bool, Bool-cases, inl, inr, Result, ok, err, Exec,
}
use filo_j.Shared.Errors.{Exn, ExnClass}
use filo_j.SecurityScanner.ClamAv.{Client, Tenacity, TenacityLaws}

module _ (t : Tenacity) (laws : TenacityLaws t) where
  module _ {A : Type 0} (p : ExnClass → Bool) (m : Exec Client Exn A) (I : Client → Type 0)
      (P : Result Exn A × Client → Type 0)
      (attempt : (c : Client) → I c → P (m c) × I (m c).1) where
    -- `I` holds between the attempts, and `P` of what each gives.
    pub retry-rule : (n : ℕ) (c : Client) → I c → P (t.retry (suc n) p m c)
    retry-rule zero c h = last (m c) refl
      where
        last : (r : Result Exn A × Client) → m c ≡ r → P (t.retry 1 p m c)
        last (ok a, c') e =
            subst P (sym (laws.retry_returned zero p m c c' a e)) (subst P e ((attempt c h).0))
        last (err x, c') e =
            subst P (sym (laws.retry_last p m c c' x e)) (subst P e ((attempt c h).0))
    retry-rule (suc n) c h = more (m c) refl (λ c' h'. retry-rule n c' h')
      where
        more :
            (r : Result Exn A × Client)
            → m c ≡ r
            → ((c' : Client) → I c' → P (t.retry (suc n) p m c'))
            → P (t.retry (suc (suc n)) p m c)
        more (ok a, c') e rest =
            subst P (sym (laws.retry_returned (suc n) p m c c' a e)) (subst P e ((attempt c h).0))
        more (err x, c') e rest = elim (Bool-cases (p x.class)) [
          | inl again ↦
              subst P (sym (laws.retry_again n p m c c' x e again))
                (rest c' (subst (λ r. I r.1) e ((attempt c h).1)))
          | inr refused ↦
              subst P (sym (laws.retry_refused (suc n) p m c c' x e refused))
                (subst P e ((attempt c h).0))
        ]
