-- ===== src/Api/Lifespan.antt =====
-- api/main.py: `lifespan`, and what the process has when it begins to serve.
use filo_j.Prelude.{Exec, ◌>>◌}
use filo_j.Shared.Errors.{Exn}
use filo_j.Shared.World.{World, Faults, call}
use filo_j.Shared.Storage.{setup_buckets}
use filo_j.Shared.Broker.{connect, close}

module _ (fault : Faults) where
  -- Up to the `yield`: the buckets, the broker, and the tables that are missing
  unfoldable pub startup : Exec World Exn (Unit {0})
  startup = do setup_buckets fault; connect fault 1; call fault (λ w. w)

  -- Behind the `yield`
  unfoldable pub shutdown : Exec World Exn (Unit {0})
  shutdown = do call fault (λ w. w); close fault

  -- `serving` is what the process does at the `yield`.
  unfoldable pub lifespan : Exec World Exn (Unit {0}) → Exec World Exn (Unit {0})
  lifespan serving = do startup; serving; shutdown
