-- ===== src/Gateway/Lifespan.antt =====
-- gateway/main.py: `lifespan`, as fastapi runs it by `asynccontextmanager` of contextlib, and `RedisClient`
-- of shared/redis/client.py. The clients are made without a call; to ping and to close are calls.
use filo_j.Prelude.{
  ◌≡◌, Bool, true, false, some, ok, err, Exec, pure, raise, modify, catch, if◌then◌else◌, arith,
  ◌>>◌,
}
use filo_j.Shared.Errors.{Exn, exn, runtime_error}
use filo_j.Shared.World.{World, Faults, call}
use filo_j.Shared.Webhook.{is_exception}

-- Did the generator come to its `yield`?
pub record Starting : Type 0 where
  pub world : World
  pub yielded : Bool

abbrev pub on_world : {A : Type 0} → Exec World Exn A → Exec Starting Exn A
on_world m s = let (a, w) = m s.world in (a, record s { world = w })

module _ (fault : Faults) where
  -- `RedisClient.ping`, which logs a failure and raises it again
  abbrev pub ping : Exec World Exn (Unit {0})
  ping = call fault (λ w. w)

  -- `RedisClient.close`: the client, then its pool
  abbrev pub close_redis : Exec World Exn (Unit {0})
  close_redis = call fault (λ w. w) >> call fault (λ w. w)

  module _ (serving : Exec World Exn (Unit {0})) where
    -- The `try` block: `serving` is what the process does at the `yield`.
    unfoldable pub serve : Exec Starting Exn (Unit {0})
    serve = do
      on_world ping
      modify (λ s. record s { yielded = true })
      on_world serving
      on_world (call fault (λ w. w))
      on_world close_redis
      on_world (call fault (λ w. w))

    abbrev pub swallow : Exn → Exec Starting Exn (Unit {0})
    swallow e = if is_exception e.class then pure tt else raise e

    -- A generator that ends without a `yield` is an error of its user.
    abbrev pub entered : Exec Starting Exn (Unit {0})
    entered s =
        if s.yielded then (ok tt, s) else (err (exn runtime_error "generator didn't yield"), s)

    unfoldable pub lifespan : Exec Starting Exn (Unit {0})
    lifespan = catch serve swallow >> entered

    -- If Redis does not answer, the gateway does not start, but not by the exception of Redis: this one
    -- is swallowed, and what stops the start is that the generator did not yield.
    pub lifespan_unreachable :
        (w : World) (e : Exn)
        → fault w.calls ≡ some e
        → is_exception e.class ≡ true
        → (lifespan (record { world = w; yielded = false })).0
          ≡ err (exn runtime_error "generator didn't yield")
    unfolding lifespan serve
    lifespan_unreachable w e failed is_exn = ground (arith, failed, is_exn)
