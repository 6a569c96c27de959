-- ===== src/Shared/Broker/Rows.antt =====
-- shared/broker.py: to connect, to declare a queue and to close neither write a row nor send a message.
use filo_j.Prelude.{◌≡◌, String, ℕ, arith}
use filo_j.Prelude.Rules.{Keeps}
use filo_j.Shared.World.{World, Faults}
use filo_j.Shared.World.Laws.{SameRows}
use filo_j.Shared.Broker.{declare_exchange, setup_exchanges, connect, get_configured_queue, close}

module _ (fault : Faults) where
  pub connect-SameRows : (n : ℕ) → Keeps SameRows (connect fault n)
  unfolding connect setup_exchanges declare_exchange
  connect-SameRows n w = ground arith

  pub get_configured_queue-SameRows :
      (exchange key name : String) → Keeps SameRows (get_configured_queue fault exchange key name)
  unfolding get_configured_queue
  get_configured_queue-SameRows exchange key name w = ground arith

  pub close-SameRows : Keeps SameRows (close fault)
  unfolding close
  close-SameRows w = ground arith

  pub connect-buckets : (n : ℕ) (w : World) → (connect fault n w).1.buckets ≡ w.buckets
  unfolding connect setup_exchanges declare_exchange
  connect-buckets n w = ground arith
