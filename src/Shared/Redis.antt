-- ===== src/Shared/Redis.antt =====
-- The Redis server that shared/redis/client.py connects to, as an interface: the commands that the
-- code issues, with what the documentation of these commands says, and the names of
-- shared/redis/cache_keys.py.
pub mod Keys
pub mod Memory
use filo_j.Prelude.{ℕ, suc, String, ◌≡◌, Option, none, some, List, ◌==◌, lookup, if◌then◌else◌}

-- The field that an `HSET` wrote, or the old one.
abbrev pub or_old {ℓ} : {A : Type ℓ} → Option A → Option A → Option A
or_old none old = old
or_old (some v) old = some v

-- `evict k` is what happens when the time to live of `k` runs out; `counter` is what `GET` would
-- show of a counter. `show` is how redis-py encodes a number, `tonumber` is Lua's.
pub record Redis : Type 1 where
  pub Store : Type 0
  pub hget : String → String → Store → Option String
  pub hgetall : String → Store → List (String × String)
  pub hset : String → List (String × String) → Store → Store
  pub incr : String → Store → Store
  pub counter : String → Store → ℕ
  pub expire : String → ℕ → Store → Store
  pub evict : String → Store → Store
  pub show : ℕ → String
  pub tonumber : String → Option ℕ

-- The documented behaviour.
pub record IsRedis (r : Redis) : Type 0 where
  pub hgetall_lem : (k f : String) (s : r.Store) → lookup f (r.hgetall k s) ≡ r.hget k f s
  pub hget-hset :
      (k j f : String) (m : List (String × String)) (s : r.Store)
      → r.hget j f (r.hset k m s)
        ≡ (if k == j then or_old (lookup f m) (r.hget j f s) else r.hget j f s)
  pub hget-incr : (k j f : String) (s : r.Store) → r.hget j f (r.incr k s) ≡ r.hget j f s
  pub hget-expire :
      (k j f : String) (t : ℕ) (s : r.Store) → r.hget j f (r.expire k t s) ≡ r.hget j f s
  pub hget-evict :
      (k j f : String) (s : r.Store)
      → r.hget j f (r.evict k s) ≡ (if k == j then none else r.hget j f s)
  pub counter-hset :
      (k j : String) (m : List (String × String)) (s : r.Store)
      → r.counter j (r.hset k m s) ≡ r.counter j s
  pub counter-incr :
      (k j : String) (s : r.Store)
      → r.counter j (r.incr k s) ≡ (if k == j then suc (r.counter j s) else r.counter j s)
  pub counter-expire :
      (k j : String) (t : ℕ) (s : r.Store) → r.counter j (r.expire k t s) ≡ r.counter j s
  pub counter-evict :
      (k j : String) (s : r.Store)
      → r.counter j (r.evict k s) ≡ (if k == j then 0 else r.counter j s)
  pub tonumber-show : (n : ℕ) → r.tonumber (r.show n) ≡ some n
