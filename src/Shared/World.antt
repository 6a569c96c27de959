-- ===== src/Shared/World.antt =====
-- What the services share and what lives outside of their processes: the broker client of the
-- process at hand, the exchanges, queues and messages of RabbitMQ, the rows that are committed, and
-- the objects in S3. Each awaited call of an external system is numbered, and the environment
-- decides by a function of that number whether the call raises.
pub mod Laws
use filo_j.Prelude.{ℕ, suc, String, Bool, Option, none, some, List, Exec, ok, err}
use filo_j.Shared.Errors.{Exn}
use filo_j.Shared.Values.{Dict}
use filo_j.Shared.Models.{Job, AuditLog, FileMetaData}

pub record Published : Type 0 where
  pub exchange : String
  pub routing_key : String
  pub payload : Dict
  pub headers : Option (List (String × ℕ))

pub record Queue : Type 0 where
  pub name : String
  pub bound_to : String
  pub binding : String
  pub dead_letter_exchange : String
  pub dead_letter_routing_key : String
  pub delivery_limit : ℕ

-- The fields of `class BrokerClient`; `connection` holds `is_closed`.
pub record BrokerClient : Type 0 where
  pub connection : Option Bool
  pub channel : Bool
  pub prefetch_count : Option ℕ
  pub exchanges : List String

pub record World : Type 0 where
  pub calls : ℕ
  pub broker : BrokerClient
  pub queues : List Queue
  pub published : List Published
  pub jobs : List Job
  pub files : List FileMetaData
  pub audit_logs : List AuditLog
  pub buckets : List String
  pub objects : List (String × String)

-- The exception that the n-th external call raises, if it raises one.
abbrev pub Faults : Type 0
Faults = ℕ → Option Exn

abbrev pub tick : World → World
tick w = record w { calls = suc w.calls }

-- One awaited call: it raises and has no effect, or it has its effect.
abbrev pub call : Faults → (World → World) → Exec World Exn (Unit {0})
call fault effect w = elim (fault w.calls) [
  | none ↦ (ok tt, effect (tick w))
  | some e ↦ (err e, tick w)
]

-- No call fails.
abbrev pub quiet : Faults
quiet n = none
