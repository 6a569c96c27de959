-- ===== src/Shared/Storage/Buckets.antt =====
-- shared/storage.py: which buckets there are after `setup_buckets`.
use filo_j.Prelude.{
  String, ◌≡◌, inl, inr, refl, ap, ◌∙◌, true, not, ◌&&◌, ◌||◌, [], ◌∷◌, ◌++◌, elem-append,
  elem-append_self, Result, ok, err, Exec, gets, raise_if, ◌>>=◌, ◌>>◌, Bool-cases, ◌==◌, elem,
}
use filo_j.Shared.Errors.{Exn, exn, client_error}
use filo_j.Shared.World.{World, Faults}
use filo_j.Shared.World.Laws.{call-rule, call-then}
use filo_j.Prelude.Rules.{bind-rule, catch-rule, if-rule}
use filo_j.Shared.Storage.{
  create_missing, is_client_error, upload_bucket, quarantine_bucket, processed_bucket, head_bucket,
  setup_bucket, setup_buckets,
}

-- The bucket is there if the step returns, and no bucket is lost.
abbrev HasBucket : String → World → Result Exn (Unit {0}) × World → Type 0
HasBucket bucket w (ok _, w') =
    (elem bucket w'.buckets ≡ true)
    × ((b : String) → elem b w.buckets ≡ true → elem b w'.buckets ≡ true)
HasBucket bucket w (err e, w') = Unit

setup_bucket-HasBucket :
    (fault : Faults) (bucket : String) (w : World)
    → HasBucket bucket w (setup_bucket fault bucket w)
unfolding setup_bucket head_bucket
setup_bucket-HasBucket fault bucket w =
    catch-rule (HasBucket bucket w) (Looked w) (head_bucket fault bucket w)
      (create_missing fault bucket) w
      (call-then (Looked w) fault (λ w. w)
        (gets (λ w. elem bucket w.buckets) >>= λ found.
          raise_if (not found) (exn client_error "404"))
        w (λ e. refl)
        (elim (Bool-cases (elem bucket w.buckets)) [ inl e ↦ rw e (refl, e) | inr e ↦ rw e refl ]))
      (λ e w1 same.
        if-rule (λ (m : Exec World Exn (Unit {0})). HasBucket bucket w (m w1))
          (is_client_error e.class && e.message == "404") _ _
          (λ _.
            call-rule (HasBucket bucket w) fault
              (λ w. record w { buckets = w.buckets ++ bucket ∷ [] }) w1 (λ _. tt)
              (
                elem-append_self bucket w1.buckets,
                λ b h. elem-append b bucket w1.buckets (ap (elem b) same ∙ h),
              ))
          (λ _. tt))
      (λ _ w1 h. (h.1, λ b h'. ap (elem b) h.0 ∙ h'))
  where
    Looked : World → Result Exn (Unit {0}) × World → Type 0
    Looked w (ok _, w1) = (w1.buckets ≡ w.buckets) × (elem bucket w1.buckets ≡ true)
    Looked w (err e, w1) = w1.buckets ≡ w.buckets

-- The three buckets are there if the run returns, and so is the bucket `b` if it was there before.
abbrev pub HasBuckets : String → World → Result Exn (Unit {0}) × World → Type 0
HasBuckets b w (ok _, w') =
    (elem upload_bucket w'.buckets ≡ true)
    × (elem quarantine_bucket w'.buckets ≡ true)
    × (elem processed_bucket w'.buckets ≡ true)
    × ((not (elem b w.buckets) || elem b w'.buckets) ≡ true)
HasBuckets b w (err e, w') = Unit

-- If `setup_buckets` returns, whatever buckets there were and whichever calls had failed, the three
-- buckets of the service are there, and so is each bucket `b` that was there before.
pub setup_buckets-HasBuckets :
    (fault : Faults) (b : String) (w : World) → HasBuckets b w (setup_buckets fault w)
unfolding setup_buckets
setup_buckets-HasBuckets fault b w =
    bind-rule (HasBuckets b w) (HasBucket upload_bucket w) (setup_bucket fault upload_bucket w)
      (λ _. setup_bucket fault quarantine_bucket >> setup_bucket fault processed_bucket) w
      (setup_bucket-HasBucket fault upload_bucket w) (λ _ _ _. tt)
      (λ _ w1 h1.
        bind-rule (HasBuckets b w) (HasBucket quarantine_bucket w1)
          (setup_bucket fault quarantine_bucket w1) (λ _. setup_bucket fault processed_bucket) w1
          (setup_bucket-HasBucket fault quarantine_bucket w1) (λ _ _ _. tt)
          (λ _ w2 h2.
            last w2 (setup_bucket fault processed_bucket w2) (h2.1 upload_bucket h1.0) h2.0
              (λ h. h2.1 b (h1.1 b h)) (setup_bucket-HasBucket fault processed_bucket w2)))
  where
    last :
        (w2 : World) (r : Result Exn (Unit {0}) × World)
        → elem upload_bucket w2.buckets ≡ true
        → elem quarantine_bucket w2.buckets ≡ true
        → (elem b w.buckets ≡ true → elem b w2.buckets ≡ true)
        → HasBucket processed_bucket w2 r
        → HasBuckets b w r
    last w2 (err e, w3) up quarantined kept h = tt
    last w2 (ok _, w3) up quarantined kept h = (
      h.1 upload_bucket up,
      h.1 quarantine_bucket quarantined,
      h.0,
      elim (Bool-cases (elem b w.buckets)) [
        | inl e ↦ rw (e, h.1 b (kept e)) refl
        | inr e ↦ rw e refl
      ],
    )
