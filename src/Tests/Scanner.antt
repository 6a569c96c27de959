-- ===== src/Tests/Scanner.antt =====
-- Scenarios of security_scanner/worker.py: an image that ClamAV finds clean, or infected.
use filo_j.Prelude.{◌≡◌, ◌≢◌, refl, true, arith, Bool, none, some, [], ◌∷◌, ok, err, Exec}
use filo_j.Shared.Errors.{Exn, exn, multiple_results_found}
use filo_j.Shared.Models.{Job, FileMetaData}
use filo_j.Shared.Values.{null, text}
use filo_j.Shared.World.{World, Faults}
use filo_j.Shared.Message.{Message, decoded}
use filo_j.Lifecycle.{EndsWithout}
use filo_j.SecurityScanner.Frame.{ScanReply, Frame}
use filo_j.SecurityScanner.Worker.{Libraries, is_clean, scan_block, scan_file}
use filo_j.SecurityScanner.Worker.Ambiguity.{scan_block_ambiguous}
use filo_j.SecurityScanner.Worker.Contract.{scan_file-EndsWithout}
use filo_j.Tests.Storage.{stored_world}

abbrev pub lib : Libraries
lib = record {
  parse_uuid = λ s. some 7;
  show_uuid = λ n. "id";
  show = λ n. "n";
  lower = λ s. s;
  strip = λ s. s;
  first = λ n s. s;
  error_data = λ s. text s;
  scan_data = λ reply. null;
  chunks = λ key. 1;
}

abbrev no_fault : Faults
no_fault n = none

abbrev pub scan_job : Job
scan_job = record { id = 7; file_id = 3; status = "pending"; result_data = null; updated_at = 0 }

abbrev first_row : FileMetaData
first_row = record {
  id = 3;
  name = "cafe.png";
  developer_id = "42";
  type = ".png";
  upload_id = "cafe";
  storage_location = "cafe.png";
  bucket = "uploads";
}

abbrev pub scan_world : World
scan_world = record stored_world { jobs = scan_job ∷ []; files = first_row ∷ [] }

abbrev pub scan_frame : Frame
scan_frame = record {
  world = scan_world;
  job = none;
  scan_res = none;
  developer_id = null;
  nacked = Bool.false;
}

abbrev pub scan_message : Message
scan_message = record {
  body = decoded (("job_id", text "7") ∷ ("file_hash", text "cafe.png") ∷ []);
  delivery_count = 0;
}

abbrev answers : ScanReply → Exec World Exn ScanReply
answers reply w = (ok reply, w)

abbrev pub clean_reply : ScanReply
clean_reply = record { stream = some ("OK", none) }

abbrev pub infected_reply : ScanReply
infected_reply = record { stream = some ("FOUND", some "Eicar") }

never_clean :
    (w : World) (reply : ScanReply)
    → (answers infected_reply w).0 ≡ ok reply
    → is_clean reply ≢ true
never_clean w reply h = ground (arith, h)

scan_file-EndsWithout_example :
    EndsWithout true 7 scan_frame.world.jobs
      (scan_file lib no_fault (answers infected_reply) scan_message scan_frame).1.world.jobs
scan_file-EndsWithout_example =
    scan_file-EndsWithout lib no_fault (answers infected_reply) true 7 scan_message scan_frame refl
      (λ w. (refl, refl, refl)) never_clean

-- A second developer has uploaded the same file.
abbrev second_row : FileMetaData
second_row = record first_row { id = 4; developer_id = "43" }

abbrev twice_frame : Frame
twice_frame = record scan_frame {
  world = record scan_world { files = first_row ∷ second_row ∷ [] };
}

scan_block_ambiguous_example :
    (scan_block lib no_fault (answers clean_reply) (text "7") (text "cafe.png") [] twice_frame).0
    ≡ err (exn multiple_results_found "Multiple rows were found")
scan_block_ambiguous_example =
    scan_block_ambiguous lib (answers clean_reply) "7" "cafe.png" 7 [] twice_frame scan_job
      first_row second_row [] refl refl refl
