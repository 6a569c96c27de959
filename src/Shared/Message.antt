-- ===== src/Shared/Message.antt =====
-- A message of RabbitMQ as a worker gets it.
use filo_j.Prelude.{ℕ, Bool, true, false, String, Result, ok, err, lookup, none, some}
use filo_j.Shared.Errors.{Exn, ExnClass, exn, key_error}
use filo_j.Shared.Values.{Json, Dict}

-- `json.loads(message.body.decode())`: a dict, `UnicodeDecodeError` or `JSONDecodeError`, or a value
-- that has no `get`.
pub data Body : Type 0 where
  decoded : Dict → Body
  undecodable : Exn → Body
  not_a_dict : Body

-- The body, and the header `x-delivery-count`, which is 0 if it is missing
pub record Message : Type 0 where
  pub body : Body
  pub delivery_count : ℕ

-- `data[k]`
abbrev pub field : String → Dict → Result Exn Json
field k d = elim (lookup k d) [ none ↦ err (exn key_error k) | some v ↦ ok v ]

-- What the workers discard: `(UnicodeDecodeError, JSONDecodeError, KeyError)`
abbrev pub is_malformed : ExnClass → Bool
is_malformed ExnClass.unicode_decode_error = true
is_malformed ExnClass.json_decode_error = true
is_malformed ExnClass.key_error = true
is_malformed _ = false
