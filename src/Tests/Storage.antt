-- ===== src/Tests/Storage.antt =====
-- Scenarios of shared/storage.py: an infected upload moves to quarantine.
use filo_j.Prelude.{none, [], ◌∷◌}
use filo_j.Shared.World.{World, Faults}
use filo_j.Shared.Storage.{move_to_quarantine}
use filo_j.Shared.Storage.Laws.{Moves, move_to_quarantine-Moves}
use filo_j.Tests.Broker.{ready_world}

abbrev no_fault : Faults
no_fault n = none

abbrev pub stored_world : World
stored_world = record ready_world {
  buckets = "uploads" ∷ "quarantine" ∷ "processed" ∷ [];
  objects = ("uploads", "cafe.png") ∷ [];
}

move_to_quarantine-Moves_example :
    Moves "cafe.png" "uploads" "cafe.png" stored_world
      (move_to_quarantine no_fault "cafe.png" stored_world)
move_to_quarantine-Moves_example =
    move_to_quarantine-Moves no_fault "cafe.png" "uploads" "cafe.png" stored_world
