-- ===== src/Dispatcher/WebhookRepo.antt =====
-- dispatcher/cache/webhook_repo.py: `WebhookRepo`, on the state of the worker. A command of Redis
-- raises, or acts, by the number of the external call.
use filo_j.Prelude.{ℕ, suc, String, none, some, List, ok, err, Exec, ◌>>◌}
use filo_j.Shared.Errors.{Exn}
use filo_j.Shared.Redis.{Redis}
use filo_j.Shared.Redis.Keys.{web_hook_config_key}
use filo_j.Shared.World.{World, Faults}

-- What the worker acts on: the broker with all that `World` holds, Redis, and the requests that
-- were sent to webhooks.
pub record Post : Type 0 where
  pub url : String
  pub content : String
  pub headers : List (String × String)

pub record Dispatch (r : Redis) : Type 0 where
  pub world : World
  pub store : r.Store
  pub posts : List Post

module _ (r : Redis) where
  -- An action on the world alone.
  abbrev pub on_world : {A : Type 0} → Exec World Exn A → Exec (Dispatch r) Exn A
  on_world m d = let (a, w) = m d.world in (a, record d { world = w })

module _ (r : Redis) (fault : Faults) where
  abbrev pub redis_call : {A : Type 0} → (r.Store → A × r.Store) → Exec (Dispatch r) Exn A
  redis_call f d =
      let w = record d.world { calls = suc d.world.calls } in
      elim (fault d.world.calls) [
        | some e ↦ (err e, record d { world = w })
        | none ↦ let (a, s) = f d.store in (ok a, record d { world = w; store = s })
      ]

  unfoldable pub cache_webhook_config :
      String → List (String × String) → ℕ → Exec (Dispatch r) Exn (Unit {0})
  cache_webhook_config developer_id metadata ttl = do
    redis_call (λ s. (tt, r.hset (web_hook_config_key developer_id) metadata s))
    redis_call (λ s. (tt, r.expire (web_hook_config_key developer_id) ttl s))

  unfoldable pub get_cache_data : String → Exec (Dispatch r) Exn (List (String × String))
  get_cache_data developer_id =
      redis_call (λ s. (r.hgetall (web_hook_config_key developer_id) s, s))
