-- ===== src/Shared/Redis/Memory.antt =====
-- A store that behaves as the interface says: it shows that the laws can hold together, and the
-- tests run on it. Numbers are encoded in unary.
use Prim.Native.String.{String, [] as nil, ◌∷◌ as ◌∷ₛ◌}
use filo_j.Prelude.{
  ℕ, zero, suc, ◌≡◌, refl, ap, none, some, List, [], ◌∷◌, ◌++◌, arith, ◌==◌, lookup, if◌then◌else◌,
}
use filo_j.Shared.Redis.{Redis, IsRedis, or_old}

pub record Store : Type 0 where
  pub hashes : String → List (String × String)
  pub counters : String → ℕ

abbrev pub show : ℕ → String
show zero = nil
show (suc n) = "1" ∷ₛ show n

abbrev pub tonumber : String → ℕ
tonumber nil = 0
tonumber (c ∷ₛ s) = suc (tonumber s)

tonumber-show : (n : ℕ) → tonumber (show n) ≡ n
tonumber-show zero = refl
tonumber-show (suc n) = ap (λ m. suc m) (tonumber-show n)

lookup-append :
    (f : String) (m h : List (String × String))
    → lookup f (m ++ h) ≡ or_old (lookup f m) (lookup f h)
lookup-append f [] h = refl
lookup-append f ((j, v) ∷ m) h = ground (arith, lookup-append f m h)

abbrev pub memory : Redis
memory = record {
  Store = Store;
  hget = λ k f s. lookup f (s.hashes k);
  hgetall = λ k s. s.hashes k;
  hset = λ k m s. record s { hashes = λ j. if k == j then m ++ s.hashes j else s.hashes j };
  incr = λ k s. record s { counters = λ j. if k == j then suc (s.counters j) else s.counters j };
  counter = λ k s. s.counters k;
  expire = λ k t s. s;
  evict = λ k s. record {
    hashes = λ j. if k == j then [] else s.hashes j;
    counters = λ j. if k == j then 0 else s.counters j;
  };
  show = show;
  tonumber = λ s. some (tonumber s);
}

hget-hset_memory :
    (k j f : String) (m h : List (String × String))
    → lookup f (if k == j then m ++ h else h)
      ≡ (if k == j then or_old (lookup f m) (lookup f h) else lookup f h)
hget-hset_memory k j f m h = ground (arith, lookup-append f m h)

hget-evict_memory :
    (k j f : String) (h : List (String × String))
    → lookup f (if k == j then [] else h) ≡ (if k == j then none else lookup f h)
hget-evict_memory k j f h = ground arith

pub memory-IsRedis : IsRedis memory
memory-IsRedis = record {
  hgetall_lem = λ k f s. refl;
  hget-hset = λ k j f m s. hget-hset_memory k j f m (s.hashes j);
  hget-incr = λ k j f s. refl;
  hget-expire = λ k j f t s. refl;
  hget-evict = λ k j f s. hget-evict_memory k j f (s.hashes j);
  counter-hset = λ k j m s. refl;
  counter-incr = λ k j s. refl;
  counter-expire = λ k j t s. refl;
  counter-evict = λ k j s. refl;
  tonumber-show = λ n. ap (λ m. some m) (tonumber-show n);
}

abbrev pub empty_store : memory.Store
empty_store = record { hashes = λ k. []; counters = λ k. 0 }
