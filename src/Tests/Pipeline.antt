-- ===== src/Tests/Pipeline.antt =====
-- Scenarios of the services together: an upload that ClamAV finds infected, or clean.
use filo_j.Prelude.{ℕ, none, ◌≡◌, refl, true, false, some, [], ◌∷◌, ok, Exec}
use filo_j.Shared.Errors.{Exn}
use filo_j.Shared.Values.{text, null}
use filo_j.Shared.World.{World, quiet}
use filo_j.Shared.Storage.{upload_bucket, quarantine_bucket}
use filo_j.Api
use filo_j.Api.{
  UploadFile, scheduled, upload_file, validate_mime, allowed_file_type, get_file_type, file_key,
  file_hash,
}
use filo_j.Api.Quiet.{IsNew}
use filo_j.SecurityScanner.Frame.{ScanReply, Frame}
use filo_j.SecurityScanner.Worker
use filo_j.SecurityScanner.Worker.Quiet.{Answers}
use filo_j.SecurityScanner.Worker.Verdicts.{CanPublish, IsStrip}
use filo_j.Pipeline.{Finishes, stored_in}
use filo_j.Pipeline.Scan.{IsFresh, told, upload_and_scan}
use filo_j.Pipeline.Verdicts.{upload_and_scan_infected, upload_and_scan_completed}
use filo_j.Pipeline.Images.{Completes, IsImage, upload_scan_process, upload_scan_process_completed}
use filo_j.ImageProcessor.Rotation.{rotate_image}
use filo_j.ImageProcessor.Worker.{Libraries as ImageLibraries}
use filo_j.ImageProcessor.Worker.Copies.{six_copies}
use filo_j.ImageProcessor.Worker.Quiet.{IsRendered}
use filo_j.ImageProcessor.Worker.Quiet.{audit as process_audit}
use filo_j.Tests.Images.{pillow, picture, Picture}
use filo_j.Tests.Images.{lib as images}
use filo_j.Shared.Redis.Memory.{memory, memory-IsRedis}
use filo_j.Dispatcher.WebhookRepo.{Post}
use filo_j.Dispatcher.Delivery.{attempt_delivery}
use filo_j.Dispatcher.Processor.{process_webhook}
use filo_j.Pipeline.{last_message}
use filo_j.Pipeline.Delivery.{body_of, Tells, at_dispatcher, upload_and_scan-Tells}
use filo_j.Tests.Dispatcher.{rpc, cached, has_url, has_secret}
use filo_j.Tests.Dispatcher.{lib as http, env as environment}
use filo_j.Tests.Api.{ann, note}
use filo_j.Tests.Api.{lib as api}
use filo_j.Tests.Broker.{ready_world}
use filo_j.Tests.ClamAv.{tenacity, tenacity_laws}
use filo_j.SecurityScanner.ClamAv.Laws.{on_client, on_client-Answers}
use filo_j.Tests.Scanner.{clean_reply, infected_reply, scan_frame}
use filo_j.Tests.Scanner.{lib as scanner}

-- The third call gives the ids.
abbrev lib : Worker.Libraries
lib = record scanner { parse_uuid = λ s. some 3 }

abbrev answering : ScanReply → Exec World Exn ScanReply
answering reply w = (ok reply, w)

always : (reply : ScanReply) → Answers (answering reply) reply
always reply w = (w.calls, refl)

abbrev frame : Frame
frame = record scan_frame { world = ready_world }

note-IsNew : IsNew api ann note ready_world
unfolding allowed_file_type get_file_type validate_mime
note-IsNew = record { allowed = refl; matches = refl; unknown = refl }

words : IsStrip lib.strip
words = record {
  quarantined_event = refl;
  infected_status = refl;
  completed_event = refl;
  completed_status = refl;
}

ready : CanPublish ready_world
ready = record { to_tasks = (refl, refl); to_events = (refl, refl); to_retry = (refl, refl) }

fresh : (reply : ScanReply) → IsFresh api lib (answering reply) reply ann note ready_world
fresh reply = record { new_job = refl; new_file = refl; same_uuid = refl }

-- The scan is the call of the real client.
abbrev client : Exec World Exn ScanReply
client = on_client tenacity tenacity_laws quiet (λ n. ok infected_reply)

client-Answers : Answers client infected_reply
client-Answers =
    on_client-Answers tenacity tenacity_laws quiet (λ n. ok infected_reply) infected_reply
      (λ n. refl)

client_fresh : IsFresh api lib client infected_reply ann note ready_world
client_fresh = record { new_job = refl; new_file = refl; same_uuid = refl }

upload_and_scan_infected_example :
    Finishes 3 "quarantined"
      (told api lib client infected_reply ann note "event.job.quarantined" "infected" ready_world)
      (upload_and_scan api lib client ann note 0 frame)
    × (stored_in quarantine_bucket "digest.txt" (upload_and_scan api lib client ann note 0 frame)
        ≡ true)
    × (stored_in upload_bucket "digest.txt" (upload_and_scan api lib client ann note 0 frame)
        ≡ false)
unfolding file_key file_hash get_file_type
upload_and_scan_infected_example =
    upload_and_scan_infected api lib client infected_reply ann note client-Answers words 0 frame
      note-IsNew client_fresh ready refl

upload_and_scan_completed_example :
    Finishes 3 "completed"
      (told api lib
        (answering clean_reply)
        clean_reply
        ann
        note
        "event.job.completed"
        "completed"
        ready_world)
      (upload_and_scan api lib (answering clean_reply) ann note 0 frame)
    × (stored_in upload_bucket "digest.txt"
          (upload_and_scan api lib (answering clean_reply) ann note 0 frame)
        ≡ true)
unfolding file_key file_hash get_file_type
upload_and_scan_completed_example =
    upload_and_scan_completed api lib (answering clean_reply) clean_reply ann note
      (always clean_reply) words 0 frame note-IsNew (fresh clean_reply) ready refl refl

abbrev image_api : Api.Libraries
image_api = record api { suffix = λ filename. ".png"; from_buffer = λ bytes. "image/png" }

abbrev image : UploadFile
image = record { filename = "cafe.png"; content_type = some "image/png"; content = 137 ∷ [] }

image-IsNew : IsNew image_api ann image ready_world
unfolding allowed_file_type get_file_type validate_mime
image-IsNew = record { allowed = refl; matches = refl; unknown = refl }

image_fresh : IsFresh image_api lib (answering clean_reply) clean_reply ann image ready_world
image_fresh = record { new_job = refl; new_file = refl; same_uuid = refl }

abbrev image_lib : ImageLibraries pillow
image_lib = record images { parse_uuid = λ s. some 3; stem = λ s. "digest" }

abbrev turned_picture : Picture
turned_picture = pillow.rotate_right picture

renders : IsRendered pillow image_lib "digest.png"
unfolding rotate_image
renders = record {
  img = picture;
  turned = turned_picture;
  cleaned = turned_picture;
  opens = refl;
  turns = refl;
  cleans = refl;
  saves = λ size format. refl;
}

image_ready :
    IsImage image_api lib pillow image_lib (answering clean_reply) clean_reply ann image ready_world
unfolding file_key file_hash get_file_type
image_ready = record { new_row = refl; same_uuid = refl; same_stem = refl; renders = renders }

upload_scan_process_completed_example :
    Completes 3 3
      (six_copies pillow image_lib quiet "digest")
      (process_audit (text "id") "event.image_process.complete" "processing complete")
      (upload_scan_process image_api lib pillow image_lib
        (answering clean_reply)
        ann
        image
        0
        0
        frame)
unfolding file_hash get_file_type
upload_scan_process_completed_example =
    upload_scan_process_completed image_api lib pillow image_lib (answering clean_reply) clean_reply
      ann image (always clean_reply) words 0 0 frame image-IsNew image_fresh image_ready ready refl
      refl

accepts : (n : ℕ) (post : Post) → attempt_delivery http ((environment 200).post n post) ≡ ok tt
unfolding attempt_delivery
accepts n post = refl

upload_and_scan-Tells_example :
    Tells http
      (environment 200)
      memory
      "https://example.org"
      "k"
      "id"
      "infected"
      null
      "event.job.quarantined"
      (at_dispatcher api lib client infected_reply ann note 0 frame ready_world.broker cached)
      (process_webhook http
        (environment 200)
        memory
        quiet
        rpc
        2
        (body_of
          (last_message none (upload_and_scan api lib client ann note 0 frame).1.world.published))
        (at_dispatcher api lib client infected_reply ann note 0 frame ready_world.broker cached))
upload_and_scan-Tells_example =
    upload_and_scan-Tells api lib client infected_reply ann note client-Answers words 0 frame
      note-IsNew client_fresh ready refl http (environment 200) memory memory-IsRedis rpc 1 cached
      ready_world.broker "https://example.org" "k" refl refl refl refl has_url has_secret accepts
