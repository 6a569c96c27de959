-- ===== src/Api/Startup.antt =====
-- api/main.py: what the process has when it begins to serve.
use filo_j.Prelude.{◌≡◌, refl, sym, ap, ◌∙◌, true, Result, ok, err, elem, ◌>>◌}
use filo_j.Prelude.Rules.{bind-rule}
use filo_j.Shared.Errors.{Exn}
use filo_j.Shared.World.{World, Faults, call}
use filo_j.Shared.World.Laws.{call-rule}
use filo_j.Shared.Storage.{upload_bucket, setup_buckets}
use filo_j.Shared.Storage.Buckets.{HasBuckets, setup_buckets-HasBuckets}
use filo_j.Shared.Broker.{connect}
use filo_j.Shared.Broker.Laws.{IsReady, connect-IsReady}
use filo_j.Shared.Broker.Rows.{connect-buckets}
use filo_j.Shared.Quiet.{IsOpen}
use filo_j.Api.Lifespan.{startup}

-- If the start returns, there is the bucket that the uploads go to, and the client can publish to the
-- two exchanges of the upload.
abbrev pub Serves : Result Exn (Unit {0}) × World → Type 0
Serves (ok _, w) =
    (elem upload_bucket w.buckets ≡ true) × IsOpen "work.tasks" w × IsOpen "system.events" w
Serves (err e, w) = Unit

module _ (fault : Faults) where
  abbrev HasBucket : Result Exn (Unit {0}) × World → Type 0
  HasBucket (ok _, w) = elem upload_bucket w.buckets ≡ true
  HasBucket (err e, w) = Unit

  bucket_of :
      (w : World) (r : Result Exn (Unit {0}) × World) → HasBuckets upload_bucket w r → HasBucket r
  bucket_of w (ok _, w') h = h.0
  bucket_of w (err e, w') h = tt

  connected :
      (w : World) (r : Result Exn (Unit {0}) × World)
      → connect fault 1 w ≡ r
      → elem upload_bucket w.buckets ≡ true
      → (r.0 ≡ ok tt → IsReady r.1)
      → Serves r
  connected w (ok _, w') e h ready = (
    ap (elem upload_bucket) (sym (ap (λ r. r.1.buckets) e) ∙ connect-buckets fault 1 w) ∙ h,
    ((ready refl).has_channel, (ready refl).has_tasks),
    ((ready refl).has_channel, (ready refl).has_events),
  )
  connected w (err x, w') e h ready = tt

  -- If the start of the process returns, whichever calls had failed and whatever there was before, the
  -- bucket of the uploads is there, and the client can publish to both exchanges of an upload.
  pub startup-Serves : (w : World) → Serves (startup fault w)
  unfolding startup
  startup-Serves w =
      bind-rule Serves HasBucket (setup_buckets fault w)
        (λ _. connect fault 1 >> call fault (λ w. w)) w
        (bucket_of w (setup_buckets fault w) (setup_buckets-HasBuckets fault upload_bucket w))
        (λ _ _ _. tt)
        (λ _ w1 h1.
          bind-rule Serves Serves (connect fault 1 w1) (λ _. call fault (λ w. w)) w1
            (connected w1 (connect fault 1 w1) refl h1 (connect-IsReady fault 1 w1)) (λ _ _ _. tt)
            (λ _ w2 h2. call-rule Serves fault (λ w. w) w2 (λ _. tt) h2))
