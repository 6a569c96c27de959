-- ===== src/Tests/Api.antt =====
-- Scenarios of the upload: a text file of a developer who has none yet, and another one after it.
use filo_j.Prelude.{ℕ, ◌≡◌, refl, true, none, some, ok, List, [], ◌∷◌}
use filo_j.Shared.World.{Faults, quiet, tick}
use filo_j.Api.{
  Libraries, UploadFile, DeveloperHeaders, validate_mime, upload_file, file_exists,
  allowed_file_type, get_file_type,
}
use filo_j.Api.Laws.{Uploads, upload_file-Uploads}
use filo_j.Api.Quiet.{IsNew}
use filo_j.Api.Collision.{upload_file_collision}
use filo_j.Tests.Broker.{ready_world}

abbrev pub lib : Libraries
lib = record {
  suffix = λ filename. ".txt";
  lower = λ s. s;
  from_buffer = λ bytes. "text/plain";
  sha256 = λ bytes. "digest";
  is_uuid = λ s. true;
  new_file_id = λ n. n;
  new_job_id = λ n. n;
  show_uuid = λ n. "id";
}

abbrev no_fault : Faults
no_fault n = none

abbrev pub ann : DeveloperHeaders
ann = record { developer_id = "42"; plan = "free" }

abbrev pub note : UploadFile
note = record { filename = "note.txt"; content_type = some "text/plain"; content = 104 ∷ 105 ∷ [] }

abbrev other_content : List ℕ
other_content = 98 ∷ 121 ∷ 101 ∷ []

upload_file-Uploads_example : Uploads ready_world (upload_file lib no_fault ann note ready_world)
upload_file-Uploads_example = upload_file-Uploads lib no_fault ann note ready_world

note-IsNew : IsNew lib ann note ready_world
unfolding allowed_file_type get_file_type validate_mime
note-IsNew = record { allowed = refl; matches = refl; unknown = refl }

upload_file_collision_example :
    let w1 = (upload_file lib quiet ann note ready_world).1 in
    upload_file lib quiet ann (record note { content = other_content }) w1
    ≡ (ok (file_exists "id" "pending"), tick w1)
unfolding validate_mime
upload_file_collision_example =
    upload_file_collision lib ann note other_content ready_world note-IsNew (refl, refl)
      (refl, refl) refl refl refl
