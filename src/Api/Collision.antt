-- ===== src/Api/Collision.antt =====
-- api/main.py: an upload that differs from an earlier one in its first 2048 bytes only. `validate_mime`
-- has read these bytes when the digest is taken.
use filo_j.Prelude.{
  ℕ, String, ◌≡◌, refl, sym, ap, subst, ◌∙◌, true, not, ◌&&◌, ◌||◌, List, [], ◌∷◌, ◌++◌, select, ok,
  raise_if, catch, arith, nat_eq, ◌==◌, eq_iff, Bool-cases, inl, inr, ◌>>◌,
}
use filo_j.Prelude.Rules.{raise_if-passed}
use filo_j.Shared.Errors.{exn, http_exception}
use filo_j.Shared.Models.{Job, FileMetaData}
use filo_j.Shared.World.{World, tick, quiet}
use filo_j.Shared.Quiet.{IsOpen}
use filo_j.Shared.Storage.{put_object}
use filo_j.Api.{
  Libraries, UploadFile, DeveloperHeaders, file_exists, drop, holds_file, validate_mime, file_hash,
  allowed_file_type, find_job, on_error, try_upload, upload_file,
}
use filo_j.Api.Quiet.{hash, job_id, job_row, file_row, file_id, uploaded, IsNew, upload_file-quiet}

holds_file-append :
    (h d : String) (id : ℕ) (files : List FileMetaData) (f : FileMetaData)
    → holds_file h d id (files ++ f ∷ [])
      ≡ (holds_file h d id files || (nat_eq f.id id && (f.upload_id == h && f.developer_id == d)))
holds_file-append h d id [] f = ground arith
holds_file-append h d id (x ∷ xs) f = ground (arith, holds_file-append h d id xs f)

-- Only the new row passes.
select_new :
    (h d : String) (files : List FileMetaData) (f : FileMetaData) (jobs : List Job) (job : Job)
    → select (λ (j : Job). holds_file h d j.file_id files) jobs ≡ []
    → select (λ (j : Job). nat_eq j.file_id f.id) jobs ≡ []
    → holds_file h d job.file_id (files ++ f ∷ []) ≡ true
    → select (λ (j : Job). holds_file h d j.file_id (files ++ f ∷ [])) (jobs ++ job ∷ []) ≡ job ∷ []
select_new h d files f [] job none_holds none_refers holds = ground (arith, holds)
select_new h d files f (j ∷ jobs) job none_holds none_refers holds =
    elim (Bool-cases (holds_file h d j.file_id files)) [
      | inl e ↦ ground (arith, e, none_holds)
      | inr e ↦ elim (Bool-cases (nat_eq j.file_id f.id)) [
        | inl e' ↦ ground (arith, e', none_refers)
        | inr e' ↦ ground (
          arith,
          e,
          e',
          holds_file-append h d j.file_id files f,
          select_new h d files f jobs job (ground (arith, e, none_holds))
              (ground (arith, e', none_refers)) holds,
        )
      ]
    ]

module _ (lib : Libraries) (developer : DeveloperHeaders) (file : UploadFile) where
  -- The digest does not depend on the first 2048 bytes.
  file_hash-drop :
      (content : List ℕ)
      → drop 2048 content ≡ drop 2048 file.content
      → file_hash lib (record file { content = content }) ≡ file_hash lib file
  unfolding file_hash
  file_hash-drop content e = ap (λ bytes. lib.sha256 bytes) e

  new-holds :
      (w : World)
      → holds_file
          (hash lib developer file)
          developer.developer_id
          (file_id lib developer file w)
          (w.files ++ file_row lib developer file w ∷ [])
        ≡ true
  new-holds w = ground (
    arith,
    holds_file-append (hash lib developer file) developer.developer_id
        (file_id lib developer file w) w.files (file_row lib developer file w),
    eq_iff (hash lib developer file) (hash lib developer file),
    eq_iff developer.developer_id developer.developer_id,
  )

  try_upload-found :
      (w : World) (job : Job)
      → select
          (λ (j : Job).
            holds_file (hash lib developer file) developer.developer_id j.file_id w.files)
          w.jobs
        ≡ job ∷ []
      → job.status ≡ "pending"
      → try_upload lib quiet developer file.filename (hash lib developer file) w
        ≡ (ok (file_exists (lib.show_uuid job.id) "pending"), tick w)
  unfolding try_upload find_job
  try_upload-found w job found pending = rw (found, pending) refl

  fresh_ids :
      (w : World)
      → select (λ (j : Job). nat_eq j.file_id (file_id lib developer file w)) w.jobs ≡ []
      → select (λ (j : Job). nat_eq j.file_id (file_row lib developer file w).id) w.jobs ≡ []
  fresh_ids w h = h

  upload_file-found :
      (content : List ℕ) (w : World) (job : Job)
      → allowed_file_type lib file.filename ≡ true
      → validate_mime lib (record file { content = content }) ≡ true
      → drop 2048 content ≡ drop 2048 file.content
      → select
          (λ (j : Job).
            holds_file (hash lib developer file) developer.developer_id j.file_id w.files)
          w.jobs
        ≡ job ∷ []
      → job.status ≡ "pending"
      → upload_file lib quiet developer (record file { content = content }) w
        ≡ (ok (file_exists (lib.show_uuid job.id) "pending"), tick w)
  unfolding upload_file
  upload_file-found content w job allowed matches e found pending =
      let run = λ (h : String).
        catch (try_upload lib quiet developer file.filename h)
          (on_error lib quiet developer file.filename h) in
      let other = file_hash lib (record file { content = content }) in
      raise_if-passed (not (allowed_file_type lib file.filename))
        (exn (http_exception 400) "File type is invalid")
        (raise_if (not (validate_mime lib (record file { content = content })))
            (exn (http_exception 400) "File type mismatch — file content does not match extension")
          >> run other)
        w (ap not allowed)
      ∙ (raise_if-passed (not (validate_mime lib (record file { content = content })))
            (exn (http_exception 400) "File type mismatch — file content does not match extension")
            (run other) w (ap not matches)
          ∙ (ap (λ h. run h w) (file_hash-drop content e)
              ∙ ap
                  (λ r.
                    catch (λ (_ : World). r)
                      (on_error lib quiet developer file.filename (hash lib developer file)) w)
                  (try_upload-found w job found pending)))

  -- A new file is uploaded, no call fails, and no earlier job refers to the id of its row. Then another
  -- file of the same name and a type that passes, which differs in its first 2048 bytes only, is taken
  -- for the same: it is answered by the first one's job, and nothing is stored or sent for it.
  pub upload_file_collision :
      (content : List ℕ) (w : World)
      → IsNew lib developer file w
      → IsOpen "work.tasks" w
      → IsOpen "system.events" w
      → select (λ (j : Job). nat_eq j.file_id (file_id lib developer file w)) w.jobs ≡ []
      → validate_mime lib (record file { content = content }) ≡ true
      → drop 2048 content ≡ drop 2048 file.content
      → let w1 = (upload_file lib quiet developer file w).1 in
        upload_file lib quiet developer (record file { content = content }) w1
        ≡ (ok (file_exists (job_id lib developer file w) "pending"), tick w1)
  unfolding put_object
  upload_file_collision content w new to_tasks to_events fresh matches e =
      subst
        (λ (w1 : World).
          upload_file lib quiet developer (record file { content = content }) w1
          ≡ (ok (file_exists (job_id lib developer file w) "pending"), tick w1))
        (sym (ap (λ r. r.1) (upload_file-quiet lib developer file w new to_tasks to_events)))
        (upload_file-found content (uploaded lib developer file w) (job_row lib developer file w)
          new.allowed matches e
          (select_new (hash lib developer file) developer.developer_id w.files
            (file_row lib developer file w) w.jobs (job_row lib developer file w) new.unknown
            (fresh_ids w fresh) (new-holds w))
          refl)
