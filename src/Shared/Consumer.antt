-- ===== src/Shared/Consumer.antt =====
-- How the workers take messages: `async for message in iterator`, given the messages that come until
-- the queue is closed, with `message.process(requeue=True)` of aio_pika as a parameter.
use filo_j.Prelude.{Bool, List, [], ◌∷◌, Result, Exec, pure, ensure, ◌>>◌}
use filo_j.Prelude.Rules.{Keeps, Preserves, bind-Preserves}
use filo_j.Shared.Errors.{Exn}
use filo_j.Shared.World.{World}
use filo_j.Shared.World.Laws.{SameRows}

-- What `message.process(requeue=True)` does at the end of its block, which returned or raised; the
-- first argument says whether the block has rejected the message by itself.
pub record AioPika : Type 0 where
  pub leave : Bool → Result Exn (Unit {0}) → Exec World Exn (Unit {0})

-- It settles a message with RabbitMQ, and neither writes a row nor sends a message.
pub record AioPikaLaws (aio : AioPika) : Type 0 where
  pub leave-SameRows :
      (rejected : Bool) (r : Result Exn (Unit {0})) → Keeps SameRows (aio.leave rejected r)

module _ {S M : Type 0} (handle : M → Exec S Exn (Unit {0})) where
  -- The loop: the first exception ends it.
  unfoldable pub consume : List M → Exec S Exn (Unit {0})
  consume [] = pure tt
  consume (m ∷ ms) = handle m >> consume ms

  pub consume-Preserves :
      (I : S → Type 0)
      → ((m : M) → Preserves I (handle m))
      → (ms : List M) → Preserves I (consume ms)
  unfolding consume
  consume-Preserves I each [] = λ s h. h
  consume-Preserves I each (m ∷ ms) =
      bind-Preserves I (handle m) (λ _. consume ms) (each m) (λ _. consume-Preserves I each ms)

pub ensure-Preserves :
    {S A : Type 0} (I : S → Type 0) (m : Exec S Exn A) (last : Exec S Exn (Unit {0}))
    → Preserves I m
    → Preserves I last
    → Preserves I (ensure m last)
ensure-Preserves I m last first after s h =
    bind-Preserves I last (λ _ s2. ((m s).0, s2)) after (λ _ s2 h2. h2) (m s).1 (first s h)
