-- ===== src/Shared/Storage.antt =====
-- shared/storage.py: `S3StorageAdapter`. Of S3 the model keeps which buckets and which objects there
-- are; what an object holds is not kept. A missing bucket or object is a `ClientError`, whose message
-- stands for its code.
pub mod Laws
pub mod Buckets
use filo_j.Prelude.{
  ℕ, zero, suc, String, Bool, true, false, not, ◌&&◌, ◌||◌, Option, none, some, List, [], ◌∷◌, ◌++◌,
  elem, select, ok, err, Exec, pure, raise, raise_if, gets, catch, modify, ◌==◌, ◌>>=◌, ◌>>◌,
  if◌then◌else◌,
}
use filo_j.Shared.Errors.{Exn, ExnClass, exn, client_error}
use filo_j.Shared.World.{World, Faults, call, tick}

abbrev pub upload_bucket : String
upload_bucket = "uploads"

abbrev pub processed_bucket : String
processed_bucket = "processed"

abbrev pub quarantine_bucket : String
quarantine_bucket = "quarantine"

-- Is this the object with the key in the bucket?
abbrev pub is_object : String → String → String × String → Bool
is_object bucket key object = object.0 == bucket && object.1 == key

abbrev pub has_object : String → String → List (String × String) → Bool
has_object bucket key [] = false
has_object bucket key (object ∷ objects) =
    is_object bucket key object || has_object bucket key objects

unfoldable pub put_object : String → String → World → World
put_object bucket key w = record w { objects = (bucket, key) ∷ w.objects }

unfoldable pub remove_object : String → String → World → World
remove_object bucket key w = record w {
  objects = select (λ object. not (is_object bucket key object)) w.objects;
}

abbrev pub is_client_error : ExnClass → Bool
is_client_error client_error = true
is_client_error _ = false

module _ (fault : Faults) where
  -- An operation on an object that has to be there
  abbrev pub on_object : String → String → (World → World) → Exec World Exn (Unit {0})
  on_object bucket key effect = do
    call fault (λ w. w)
    found ← gets (λ w. has_object bucket key w.objects)
    raise_if (not found) (exn client_error "404")
    modify effect

  -- `head_bucket`
  unfoldable pub head_bucket : String → Exec World Exn (Unit {0})
  head_bucket bucket = do
    call fault (λ w. w)
    found ← gets (λ w. elem bucket w.buckets)
    raise_if (not found) (exn client_error "404")

  abbrev pub create_missing : String → Exn → Exec World Exn (Unit {0})
  create_missing bucket e =
      if is_client_error e.class && e.message == "404"
      then call fault (λ w. record w { buckets = w.buckets ++ bucket ∷ [] })
      else raise e

  -- One turn of the loop
  unfoldable pub setup_bucket : String → Exec World Exn (Unit {0})
  setup_bucket bucket = catch (head_bucket bucket) (create_missing bucket)

  unfoldable pub setup_buckets : Exec World Exn (Unit {0})
  setup_buckets = do
    setup_bucket upload_bucket
    setup_bucket quarantine_bucket
    setup_bucket processed_bucket

  unfoldable pub upload_file : String → String → Option String → Exec World Exn (Unit {0})
  upload_file file_key bucket content_type = call fault (put_object bucket file_key)

  -- `sign` is the URL that boto computes.
  unfoldable pub get_presigned_url :
      (String → String → ℕ → String) → String → String → ℕ → Exec World Exn (Option String)
  get_presigned_url sign file_key bucket expires_in =
      catch (call fault (λ w. w) >> pure (some (sign bucket file_key expires_in)))
        (λ e. if is_client_error e.class then pure none else raise e)

  -- Copy, look at the copy, delete the original
  unfoldable pub move_to_quarantine : String → Exec World Exn (Unit {0})
  move_to_quarantine file_key = do
    on_object upload_bucket file_key (put_object quarantine_bucket file_key)
    on_object quarantine_bucket file_key (λ w. w)
    call fault (remove_object upload_bucket file_key)

  -- The chunks of an object are read one by one, and each may fail.
  unfoldable pub read_chunks : ℕ → Exec World Exn (Unit {0})
  read_chunks zero = pure tt
  read_chunks (suc chunks) = call fault (λ w. w) >> read_chunks chunks

  -- `get_file_stream`, read to its end
  unfoldable pub get_file_stream : String → ℕ → Exec World Exn (Unit {0})
  get_file_stream file_key chunks = do on_object upload_bucket file_key (λ w. w); read_chunks chunks

  unfoldable pub delete_fileobj : String → Exec World Exn (Unit {0})
  delete_fileobj file_key = call fault (remove_object upload_bucket file_key)
