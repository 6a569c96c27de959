-- ===== src/ImageProcessor/Worker/Copies.antt =====
-- image_processor/worker.py: what the making of the copies leaves in the bucket of the copies.
use filo_j.Prelude.{
  ℕ, String, ◌≡◌, refl, sym, ap, ◌∙◌, subst, true, none, List, [], ◌∷◌, ◌++◌, map, Result, ok, err,
  Exec, pure, lift, arith, eq_refl, ◌>>=◌, ◌>>◌, All,
}
use filo_j.Prelude.Rules.{bind-rule}
use filo_j.Shared.Errors.{Exn}
use filo_j.Shared.Values.{Json}
use filo_j.Shared.World.{World, Faults, tick}
use filo_j.Shared.World.Laws.{Sends, call-then}
use filo_j.Shared.Broker.Laws.{publish-Sends}
use filo_j.Shared.Storage.{processed_bucket, has_object, put_object, upload_file, get_file_stream}
use filo_j.Shared.Storage.Laws.{get_file_stream-SameRows}
use filo_j.ImageProcessor.Rotation.{Pillow, rotate_image}
use filo_j.ImageProcessor.Worker.{
  Libraries, Copy, sizes, formats, publish_audit, copy_of, save_formats, save_copies, upload_copies,
  make_copies,
}

-- The rows of two states are the same.
abbrev pub SameTables : World → World → Type 0
SameTables w w' = (w'.jobs ≡ w.jobs) × (w'.files ≡ w.files)

pub SameTables-trans : (a b c : World) → SameTables a b → SameTables b c → SameTables a c
SameTables-trans a b c h k = (k.0 ∙ h.0, k.1 ∙ h.1)

-- What was there is there still.
abbrev pub KeepsObjects : World → World → Type 0
KeepsObjects w w' =
    (bucket key : String)
    → has_object bucket key w.objects ≡ true
    → has_object bucket key w'.objects ≡ true

-- The copy is in its bucket.
abbrev pub IsStored : World → Copy → Type 0
IsStored w copy = has_object processed_bucket copy.key w.objects ≡ true

abbrev pub Uploads : List Copy → World → Result Exn (Unit {0}) × World → Type 0
Uploads copies w (ok _, w') = SameTables w w' × KeepsObjects w w' × All (IsStored w') copies
Uploads copies w (err e, w') = SameTables w w'

module _ (p : Pillow) (lib : Libraries p) (fault : Faults) where
  pub publish_audit-SameTables :
      (job_id : Json) (key action : String) (w : World)
      → SameTables w (publish_audit p lib fault job_id key action w).1
  unfolding publish_audit
  publish_audit-SameTables job_id key action w =
      tables w _ _ (publish-Sends fault "system.events" key _ none w)
    where
      tables :
          (w : World) (m : _) (r : Result Exn (Unit {0}) × World) → Sends m w r → SameTables w r.1
      tables w m (ok _, w') s = (s.0, s.1)
      tables w m (err e, w') s = (s.0, s.1)

  pub upload_copies-Uploads :
      (copies : List Copy) (w : World) → Uploads copies w (upload_copies p lib fault copies w)
  unfolding upload_copies upload_file put_object
  upload_copies-Uploads [] w = ((refl, refl), (λ _ _ h. h), tt)
  upload_copies-Uploads (copy ∷ copies) w =
      call-then (Uploads (copy ∷ copies) w) fault (put_object processed_bucket copy.key)
        (upload_copies p lib fault copies) w (λ e. (refl, refl))
        (one_more copy copies w
          (upload_copies p lib fault copies (put_object processed_bucket copy.key (tick w)))
          (upload_copies-Uploads copies (put_object processed_bucket copy.key (tick w))))
    where
      one_more :
          (copy : Copy) (copies : List Copy) (w : World) (r : Result Exn (Unit {0}) × World)
          → Uploads copies (put_object processed_bucket copy.key (tick w)) r
          → Uploads (copy ∷ copies) w r
      one_more copy copies w (err e, w') h = h
      one_more copy copies w (ok _, w') (same, kept, all) = (
        same,
        (λ bucket key h. kept bucket key (ground arith)),
        (kept processed_bucket copy.key (ground (arith, eq_refl copy.key)), all),
      )

  -- What a local computation does that returns this value if it returns
  abbrev Returns : {A : Type 0} → A → World → Result Exn A × World → Type 0
  Returns a w (ok b, w') = (b ≡ a) × (w' ≡ w)
  Returns a w (err e, w') = w' ≡ w

  save_formats-Returns :
      (img : p.Image) (file_hash : String) (size : ℕ) (names : List String) (w : World)
      → Returns
          (map (copy_of p lib fault file_hash size) names)
          w
          (save_formats p lib fault img file_hash size names w)
  save_formats-Returns img file_hash size [] w = (refl, refl)
  save_formats-Returns img file_hash size (format ∷ names) w =
      saved (lib.save img size format) (save_formats-Returns img file_hash size names w)
    where
      saved :
          (x : Result Exn (Unit {0}))
          → Returns
              (map (copy_of p lib fault file_hash size) names)
              w
              (save_formats p lib fault img file_hash size names w)
          → Returns (map (copy_of p lib fault file_hash size) (format ∷ names)) w (
              (lift x
                  >> (save_formats p lib fault img file_hash size names >>= λ copies.
                      pure (copy_of p lib fault file_hash size format ∷ copies)))
                w)
      saved (err e) rest = refl
      saved (ok _) rest =
          bind-rule (Returns (map (copy_of p lib fault file_hash size) (format ∷ names)) w)
            (Returns (map (copy_of p lib fault file_hash size) names) w)
            (save_formats p lib fault img file_hash size names w)
            (λ copies. pure (copy_of p lib fault file_hash size format ∷ copies)) w rest
            (λ _ w' h. h)
            (λ copies w' h. (ap (λ cs. copy_of p lib fault file_hash size format ∷ cs) h.0, h.1))

  abbrev pub copies_for : String → List ℕ → List Copy
  copies_for file_hash [] = []
  copies_for file_hash (size ∷ sizes) =
      map (copy_of p lib fault file_hash size) formats ++ copies_for file_hash sizes

  save_copies-Returns :
      (img : p.Image) (file_hash : String) (sizes : List ℕ) (w : World)
      → Returns (copies_for file_hash sizes) w (save_copies p lib fault img file_hash sizes w)
  unfolding save_copies
  save_copies-Returns img file_hash [] w = (refl, refl)
  save_copies-Returns img file_hash (size ∷ sizes) w =
      let here = map (copy_of p lib fault file_hash size) formats in
      bind-rule (Returns (copies_for file_hash (size ∷ sizes)) w) (Returns here w)
        (save_formats p lib fault img file_hash size formats w)
        (λ copies. save_copies p lib fault img file_hash sizes >>= λ rest. pure (copies ++ rest)) w
        (save_formats-Returns img file_hash size formats w) (λ _ w' h. h)
        (λ copies w1 h.
          bind-rule (Returns (copies_for file_hash (size ∷ sizes)) w)
            (Returns (copies_for file_hash sizes) w1)
            (save_copies p lib fault img file_hash sizes w1) (λ rest. pure (copies ++ rest)) w1
            (save_copies-Returns img file_hash sizes w1) (λ _ w2 h'. h' ∙ h.1)
            (λ rest w2 h'. (ap (λ cs. cs ++ rest) h.0 ∙ ap (λ cs. here ++ cs) h'.0, h'.1 ∙ h.1)))

  -- The six copies of a file
  abbrev pub six_copies : String → List Copy
  six_copies file_hash =
      copy_of p lib fault file_hash 128 "WEBP"
      ∷ copy_of p lib fault file_hash 128 "JPEG"
      ∷ copy_of p lib fault file_hash 512 "WEBP"
      ∷ copy_of p lib fault file_hash 512 "JPEG"
      ∷ copy_of p lib fault file_hash 1024 "WEBP"
      ∷ copy_of p lib fault file_hash 1024 "JPEG"
      ∷ []

  -- How the making of the copies ends
  abbrev pub Makes : String → World → Result Exn (Unit {0}) × World → Type 0
  Makes file_hash w (ok _, w') = SameTables w w' × All (IsStored w') (six_copies file_hash)
  Makes file_hash w (err e, w') = SameTables w w'

  uploaded-Makes :
      (file_hash : String) (copies : List Copy) (w w1 : World) (r : Result Exn (Unit {0}) × World)
      → copies ≡ six_copies file_hash
      → SameTables w w1
      → Uploads copies w1 r
      → Makes file_hash w r
  uploaded-Makes file_hash copies w w1 (err e, w') same_copies same h =
      SameTables-trans w w1 w' same h
  uploaded-Makes file_hash copies w w1 (ok _, w') same_copies same h =
      (SameTables-trans w w1 w' same h.0, subst (All (IsStored w')) same_copies h.2)

  pub make_copies-Makes :
      (job_id : Json) (file_key file_hash : String) (w : World)
      → Makes file_hash w (make_copies p lib fault job_id file_key file_hash w)
  unfolding make_copies
  make_copies-Makes job_id file_key file_hash w =
      bind-rule (Makes file_hash w) (λ r. SameTables w r.1)
        (publish_audit p lib fault job_id "event.image_processor.process_start"
          "started image processing" w)
        (λ _. get_file_stream fault file_key (lib.chunks file_key) >> render) w
        (publish_audit-SameTables job_id _ _ w) (λ _ w1 same. same)
        (λ _ w1 same.
          bind-rule (Makes file_hash w) (λ r. SameTables w r.1)
            (get_file_stream fault file_key (lib.chunks file_key) w1) (λ _. render) w1
            (let rows = get_file_stream-SameRows fault file_key (lib.chunks file_key) w1 in
              SameTables-trans w w1 (get_file_stream fault file_key (lib.chunks file_key) w1).1 same
                (rows.0, rows.1))
            (λ _ w2 same'. same') (λ _ w2 same'. render-Makes w2 same'))
    where
      save : p.Image → Exec World Exn (Unit {0})
      save img = save_copies p lib fault img file_hash sizes >>= upload_copies p lib fault

      render : Exec World Exn (Unit {0})
      render = lift (lib.open_rgb file_key) >>= λ img.
          lift (rotate_image p img) >>= λ turned. lift (lib.clean turned) >>= save

      save-Makes :
          (w2 : World) → SameTables w w2 → (img : p.Image) → Makes file_hash w (save img w2)
      save-Makes w2 same img =
          bind-rule (Makes file_hash w) (Returns (six_copies file_hash) w2)
            (save_copies p lib fault img file_hash sizes w2) (upload_copies p lib fault) w2
            (save_copies-Returns img file_hash sizes w2)
            (λ _ w3 h. subst (SameTables w) (sym h) same)
            (λ copies w3 h.
              uploaded-Makes file_hash copies w w3 (upload_copies p lib fault copies w3) h.0
                (subst (SameTables w) (sym h.1) same) (upload_copies-Uploads copies w3))

      stays :
          {A : Type 0} (w2 : World)
          → SameTables w w2
          → (x : Result Exn A) (rest : A → Exec World Exn (Unit {0}))
          → ((a : A) → Makes file_hash w (rest a w2))
          → Makes file_hash w ((lift x >>= rest) w2)
      stays w2 same (err e) rest then_Makes = same
      stays w2 same (ok a) rest then_Makes = then_Makes a

      render-Makes : (w2 : World) → SameTables w w2 → Makes file_hash w (render w2)
      render-Makes w2 same =
          stays w2 same (lib.open_rgb file_key)
            (λ img. lift (rotate_image p img) >>= λ turned. lift (lib.clean turned) >>= save)
            (λ img.
              stays w2 same (rotate_image p img) (λ turned. lift (lib.clean turned) >>= save)
                (λ turned. stays w2 same (lib.clean turned) save (save-Makes w2 same)))
