-- ===== src/Shared/Storage/Laws.antt =====
-- shared/storage.py: which objects there are after each operation.
use filo_j.Prelude.{
  ℕ, zero, suc, String, ◌≡◌, ◌⊎◌, inl, inr, refl, ap, ◌∙◌, Bool, not, ◌&&◌, ◌||◌, List, [], ◌∷◌,
  select, Result, ok, err, gets, raise_if, modify, ◌>>=◌, ◌>>◌, arith, eq_iff, Bool-cases, ◌==◌,
}
use filo_j.Shared.Errors.{Exn, exn, client_error}
use filo_j.Shared.World.{World, Faults, call, tick}
use filo_j.Shared.World.Laws.{SameRows, SameRows-trans, call-SameRows, call-rule, call-then}
use filo_j.Prelude.Rules.{Keeps, bind-Keeps, bind-rule}
use filo_j.Shared.Storage.{
  upload_bucket, quarantine_bucket, is_object, has_object, put_object, remove_object, on_object,
  move_to_quarantine, read_chunks, get_file_stream,
}

pub has_object-select :
    (b k bucket key : String) (objects : List (String × String))
    → has_object b k (select (λ object. not (is_object bucket key object)) objects)
      ≡ (not (bucket == b && key == k) && has_object b k objects)
has_object-select b k bucket key [] = ground arith
has_object-select b k bucket key (object ∷ objects) = ground (
  arith,
  has_object-select b k bucket key objects,
  eq_iff object.0 b,
  eq_iff object.1 k,
  eq_iff object.0 bucket,
  eq_iff object.1 key,
  eq_iff bucket b,
  eq_iff key k,
)

-- Is the object of the key `key` in the bucket `bucket` this one?
abbrev is_at : String → String → String → String → Bool
is_at bucket key b k = bucket == b && key == k

-- Which objects there are after a move by the way it ended. `b` and `k` range over all objects.
abbrev pub Moves : String → String → String → World → Result Exn (Unit {0}) × World → Type 0
Moves key b k w (ok _, w') = has_object b k w'.objects ≡ (
    is_at quarantine_bucket key b k
    || (not (is_at upload_bucket key b k) && has_object b k w.objects))
Moves key b k w (err e, w') =
    (has_object b k w'.objects ≡ has_object b k w.objects)
    ⊎ (has_object b k w'.objects ≡ (is_at quarantine_bucket key b k || has_object b k w.objects))

-- What an operation on an object does to the objects, by the way it ended
abbrev pub Touches : (World → World) → World → Result Exn (Unit {0}) × World → Type 0
Touches effect w (ok _, w') = w'.objects ≡ (effect (tick w)).objects
Touches effect w (err e, w') = w'.objects ≡ w.objects

on_object-Touches :
    (fault : Faults) (bucket key : String) (effect : World → World) (w : World)
    → Touches effect w (on_object fault bucket key effect w)
on_object-Touches fault bucket key effect w =
    call-then (Touches effect w) fault (λ w. w)
      (gets (λ w. has_object bucket key w.objects) >>= λ found.
        raise_if (not found) (exn client_error "404") >> modify effect)
      w (λ e. refl)
      (elim (Bool-cases (has_object bucket key w.objects)) [
        | inl e ↦ rw e refl
        | inr e ↦ rw e refl
      ])

-- No object is in both buckets at once.
moved_at :
    (b k key : String) (rest : Bool)
    → (not (is_at upload_bucket key b k) && (is_at quarantine_bucket key b k || rest))
      ≡ (is_at quarantine_bucket key b k || (not (is_at upload_bucket key b k) && rest))
moved_at b k key rest = ground (
  arith,
  eq_iff upload_bucket b,
  eq_iff quarantine_bucket b,
  eq_iff upload_bucket quarantine_bucket,
)

-- After a move that returns the object is in quarantine and no longer among the uploads. If it
-- raises, whichever call fails, every object that there was is still there. No other object is
-- touched.
pub move_to_quarantine-Moves :
    (fault : Faults) (key b k : String) (w : World)
    → Moves key b k w (move_to_quarantine fault key w)
unfolding move_to_quarantine put_object remove_object
move_to_quarantine-Moves fault key b k w =
    bind-rule (Moves key b k w) (Touches (put_object quarantine_bucket key) w)
      (on_object fault upload_bucket key (put_object quarantine_bucket key) w)
      (λ _.
        on_object fault quarantine_bucket key (λ w. w)
        >> call fault (remove_object upload_bucket key))
      w (on_object-Touches fault upload_bucket key (put_object quarantine_bucket key) w)
      (λ e w1 same. inl (ap (has_object b k) same))
      (λ _ w1 copied.
        bind-rule (Moves key b k w) (Touches (λ w. w) w1)
          (on_object fault quarantine_bucket key (λ w. w) w1)
          (λ _. call fault (remove_object upload_bucket key)) w1
          (on_object-Touches fault quarantine_bucket key (λ w. w) w1)
          (λ e w2 same. inr (ap (has_object b k) (same ∙ copied)))
          (λ _ w2 same.
            call-rule (Moves key b k w) fault (remove_object upload_bucket key) w2
              (λ e. inr (ap (has_object b k) (same ∙ copied)))
              (has_object-select b k upload_bucket key w2.objects
                ∙ (ap (λ objects. not (is_at upload_bucket key b k) && has_object b k objects)
                      (same ∙ copied)
                    ∙ moved_at b k key (has_object b k w.objects)))))

module _ (fault : Faults) where
  on_object-SameRows :
      (bucket key : String) (effect : World → World)
      → ((w : World) → SameRows w (effect w))
      → Keeps SameRows (on_object fault bucket key effect)
  on_object-SameRows bucket key effect same w =
      call-then (λ r. SameRows w r.1) fault (λ w. w)
        (gets (λ w. has_object bucket key w.objects) >>= λ found.
          raise_if (not found) (exn client_error "404") >> modify effect)
        w (λ e. (refl, refl, refl))
        (elim (Bool-cases (has_object bucket key w.objects)) [
          | inl e ↦ rw e (same (tick w))
          | inr e ↦ rw e (refl, refl, refl)
        ])

  pub move_to_quarantine-SameRows : (key : String) → Keeps SameRows (move_to_quarantine fault key)
  unfolding move_to_quarantine put_object remove_object
  move_to_quarantine-SameRows key =
      bind-Keeps SameRows SameRows-trans
        (on_object fault upload_bucket key (put_object quarantine_bucket key))
        (λ _.
          on_object fault quarantine_bucket key (λ w. w)
          >> call fault (remove_object upload_bucket key))
        (on_object-SameRows upload_bucket key (put_object quarantine_bucket key)
          (λ w. (refl, refl, refl)))
        (λ w. (refl, refl, refl))
        (λ _.
          bind-Keeps SameRows SameRows-trans (on_object fault quarantine_bucket key (λ w. w))
            (λ _. call fault (remove_object upload_bucket key))
            (on_object-SameRows quarantine_bucket key (λ w. w) (λ w. (refl, refl, refl)))
            (λ w. (refl, refl, refl))
            (λ _. call-SameRows fault (remove_object upload_bucket key) (λ w. (refl, refl, refl))))

  read_chunks-SameRows : (chunks : ℕ) → Keeps SameRows (read_chunks fault chunks)
  unfolding read_chunks
  read_chunks-SameRows zero w = (refl, refl, refl)
  read_chunks-SameRows (suc chunks) w =
      bind-Keeps SameRows SameRows-trans (call fault (λ w. w)) (λ _. read_chunks fault chunks)
        (call-SameRows fault (λ w. w) (λ w. (refl, refl, refl))) (λ w. (refl, refl, refl))
        (λ _. read_chunks-SameRows chunks) w

  pub get_file_stream-SameRows :
      (key : String) (chunks : ℕ) → Keeps SameRows (get_file_stream fault key chunks)
  unfolding get_file_stream
  get_file_stream-SameRows key chunks =
      bind-Keeps SameRows SameRows-trans (on_object fault upload_bucket key (λ w. w))
        (λ _. read_chunks fault chunks)
        (on_object-SameRows upload_bucket key (λ w. w) (λ w. (refl, refl, refl)))
        (λ w. (refl, refl, refl)) (λ _. read_chunks-SameRows chunks)
