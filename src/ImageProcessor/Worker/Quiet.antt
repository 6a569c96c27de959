-- ===== src/ImageProcessor/Worker/Quiet.antt =====
-- image_processor/worker.py: a run of `process_image` in which no call fails and Pillow makes each copy.
use filo_j.Prelude.{
  ℕ, String, ◌≡◌, refl, subst, ap, true, none, List, [], ◌∷◌, ◌++◌, map, ok, Exec, pure, lift,
  ◌>>=◌, ◌>>◌, All,
}
use filo_j.Prelude.Rules.{bind-ok}
use filo_j.Shared.Errors.{Exn}
use filo_j.Shared.Values.{Json, text}
use filo_j.Shared.World.{Published, World, tick, quiet}
use filo_j.Shared.Storage.{
  upload_bucket, processed_bucket, has_object, put_object, upload_file, get_file_stream,
}
use filo_j.Shared.Quiet.{sent, IsOpen, publish-quiet, get_file_stream-quiet}
use filo_j.ImageProcessor.Rotation.{Pillow, rotate_image}
use filo_j.ImageProcessor.Worker.{
  Libraries, Copy, sizes, formats, publish_audit, copy_of, save_formats, save_copies, upload_copies,
  make_copies,
}
use filo_j.ImageProcessor.Worker.Copies.{
  IsStored, Uploads, upload_copies-Uploads, copies_for, six_copies,
}

-- The message of an audit event
abbrev pub audit : Json → String → String → Published
audit job_id routing_key action = record {
  exchange = "system.events";
  routing_key = routing_key;
  payload =
      ("job_id", job_id)
      ∷ ("service", text "image_processor")
      ∷ ("routing_key", text routing_key)
      ∷ ("action", text action)
      ∷ [];
  headers = none;
}

-- The bucket of the copies after the uploads
abbrev pub copied : List Copy → World → World
copied [] w = w
copied (copy ∷ copies) w = copied copies (put_object processed_bucket copy.key (tick w))

module _ (p : Pillow) (lib : Libraries p) where
  -- Pillow opens the object with this key, turns and cleans it, and saves each thumbnail.
  pub record IsRendered (key : String) : Type 0 where
    pub img : p.Image
    pub turned : p.Image
    pub cleaned : p.Image
    pub opens : lib.open_rgb key ≡ ok img
    pub turns : rotate_image p img ≡ ok turned
    pub cleans : lib.clean turned ≡ ok cleaned
    pub saves : (size : ℕ) (format : String) → lib.save cleaned size format ≡ ok tt

  pub publish_audit-quiet :
      (job_id : Json) (key action : String) (w : World)
      → IsOpen "system.events" w
      → publish_audit p lib quiet job_id key action w ≡ (ok tt, sent (audit job_id key action) w)
  unfolding publish_audit
  publish_audit-quiet job_id key action w ready =
      publish-quiet "system.events" key
        (("job_id", job_id)
          ∷ ("service", text "image_processor")
          ∷ ("routing_key", text key)
          ∷ ("action", text action)
          ∷ [])
        none w ready

  module _ (img : p.Image) (hash : String)
      (saves : (size : ℕ) (format : String) → lib.save img size format ≡ ok tt) where
    save_formats-quiet :
        (size : ℕ) (names : List String) (w : World)
        → save_formats p lib quiet img hash size names w
          ≡ (ok (map (copy_of p lib quiet hash size) names), w)
    save_formats-quiet size [] w = refl
    save_formats-quiet size (format ∷ names) w =
        bind-ok (lib.save img size format, w)
          (λ _. save_formats p lib quiet img hash size names >>= λ copies.
            pure (copy_of p lib quiet hash size format ∷ copies))
          w w tt (ap (λ r. (r, w)) (saves size format))
          (bind-ok (save_formats p lib quiet img hash size names w)
            (λ copies. pure (copy_of p lib quiet hash size format ∷ copies)) w w
            (map (copy_of p lib quiet hash size) names) (save_formats-quiet size names w) refl)

    save_copies-quiet :
        (sizes : List ℕ) (w : World)
        → save_copies p lib quiet img hash sizes w ≡ (ok (copies_for p lib quiet hash sizes), w)
    unfolding save_copies
    save_copies-quiet [] w = refl
    save_copies-quiet (size ∷ sizes) w =
        let here = map (copy_of p lib quiet hash size) formats in
        bind-ok (save_formats p lib quiet img hash size formats w)
          (λ copies. save_copies p lib quiet img hash sizes >>= λ rest. pure (copies ++ rest)) w w
          here (save_formats-quiet size formats w)
          (bind-ok (save_copies p lib quiet img hash sizes w) (λ rest. pure (here ++ rest)) w w
            (copies_for p lib quiet hash sizes) (save_copies-quiet sizes w) refl)

  upload_copies-quiet :
      (copies : List Copy) (w : World)
      → upload_copies p lib quiet copies w ≡ (ok tt, copied copies w)
  unfolding upload_copies upload_file
  upload_copies-quiet [] w = refl
  upload_copies-quiet (copy ∷ copies) w =
      upload_copies-quiet copies (put_object processed_bucket copy.key (tick w))

  -- The world when the image is read, and when the copies are made
  abbrev pub started : Json → ℕ → World → World
  started job_id calls w =
      record (sent (audit job_id "event.image_processor.process_start" "started image processing")
        w) { calls = calls }

  abbrev pub made : Json → String → ℕ → World → World
  made job_id hash calls w = copied (six_copies p lib quiet hash) (started job_id calls w)

  pub make_copies-quiet :
      (job_id : Json) (key hash : String) (w : World)
      → IsRendered key
      → IsOpen "system.events" w
      → has_object upload_bucket key w.objects ≡ true
      → (calls : ℕ) × (make_copies p lib quiet job_id key hash w
          ≡ (ok tt, made job_id hash calls w))
  unfolding make_copies
  make_copies-quiet job_id key hash w image ready there =
      let w1 =
        sent (audit job_id "event.image_processor.process_start" "started image processing") w in
      let (calls, read) = get_file_stream-quiet key (lib.chunks key) w1 there in
      let w2 = record w1 { calls = calls } in
      let upload = upload_copies p lib quiet in
      let save = λ (img : p.Image). save_copies p lib quiet img hash sizes >>= upload in
      let clean = λ (img : p.Image). lift (lib.clean img) >>= save in
      let turn = λ (img : p.Image). lift (rotate_image p img) >>= clean in
      let render : Exec World Exn (Unit {0}) = lift (lib.open_rgb key) >>= turn in
      (
        calls,
        bind-ok
            (publish_audit p lib quiet job_id "event.image_processor.process_start"
              "started image processing" w)
            (λ _. get_file_stream quiet key (lib.chunks key) >> render) w w1 tt
            (publish_audit-quiet job_id _ _ w ready)
            (bind-ok (get_file_stream quiet key (lib.chunks key) w1) (λ _. render) w1 w2 tt read
              (bind-ok (lib.open_rgb key, w2) turn w2 w2 image.img (ap (λ r. (r, w2)) image.opens)
                (bind-ok (rotate_image p image.img, w2) clean w2 w2 image.turned
                  (ap (λ r. (r, w2)) image.turns)
                  (bind-ok (lib.clean image.turned, w2) save w2 w2 image.cleaned
                    (ap (λ r. (r, w2)) image.cleans)
                    (bind-ok (save_copies p lib quiet image.cleaned hash sizes w2) upload w2 w2
                      (six_copies p lib quiet hash)
                      (save_copies-quiet image.cleaned hash image.saves sizes w2)
                      (upload_copies-quiet (six_copies p lib quiet hash) w2)))))),
      )

  pub copied-IsStored : (copies : List Copy) (w : World) → All (IsStored (copied copies w)) copies
  copied-IsStored copies w =
      (subst (Uploads copies w) (upload_copies-quiet copies w)
        (upload_copies-Uploads p lib quiet copies w)).2
