-- ===== src/SecurityScanner/Frame.antt =====
-- security_scanner/worker.py: what a run of `scan_file` works on. A local variable that is not
-- assigned yet is `none`; to read it is an `UnboundLocalError`.
use filo_j.Prelude.{String, Bool, Option, none, some, Result, ok, err, Exec}
use filo_j.Shared.Errors.{Exn, exn, other_error}
use filo_j.Shared.Models.{Job}
use filo_j.Shared.Values.{Json}
use filo_j.Shared.World.{World}

-- What ClamAV answers: the entry `stream`, which is a verdict with the name of a threat.
pub record ScanReply : Type 0 where
  pub stream : Option (String × Option String)

-- `nacked`: was the message rejected without being put back?
pub record Frame : Type 0 where
  pub world : World
  pub job : Option (Option Job)
  pub scan_res : Option ScanReply
  pub developer_id : Json
  pub nacked : Bool

-- An action on the world
abbrev pub on_world : {A : Type 0} → Exec World Exn A → Exec Frame Exn A
on_world m f = let (a, w) = m f.world in (a, record f { world = w })

-- To read a local variable
abbrev pub local : {A : Type 0} → Option A → Result Exn A
local none = err (exn other_error "cannot access local variable")
local (some a) = ok a
