-- ===== src/Dispatcher/Retry.antt =====
-- dispatcher/utils/retry.py. A delay is a count of parts of a millisecond, `unit` parts to one:
-- `unit` is a multiple of 5, so that a fifth of a whole number of milliseconds is whole. The draw of
-- `random.uniform(-range, range)` is `draw - range` for a `draw` from 0 to twice the range.
use filo_j.Prelude.{
  ℕ, ◌+◌, ◌-◌, ◌*◌, ◌/◌, ◌^◌, String, Bool, Option, none, some, List, [], ◌∷◌, Result, ok, err, leb,
  insert, lookup, if◌then◌else◌,
}
use filo_j.Shared.Errors.{Exn, exn, value_error, type_error}
use filo_j.Shared.Values.{ℤ, pos, negsuc, succ, ltb_ℤ, Json, int, text, Dict}

abbrev pub max_delivery_count : ℕ
max_delivery_count = 3

abbrev pub base_delay_ms : ℕ
base_delay_ms = 2000

abbrev pub max_delay_ms : ℕ
max_delay_ms = 300000

unfoldable pub should_retry : ℤ → Bool
should_retry attempt = ltb_ℤ (succ attempt) max_delivery_count

abbrev pub min : ℕ → ℕ → ℕ
min a b = if leb a b then a else b

-- `min(MAX_DELAY_MS, BASE_DELAY_MS * (2 ** attempt))`
unfoldable pub capped_delay : ℕ → ℕ
capped_delay attempt = min max_delay_ms (base_delay_ms * 2 ^ attempt)

-- `capped_delay * JITTER_FRACTION`, in parts
unfoldable pub jitter_range : ℕ → ℕ → ℕ
jitter_range unit attempt = capped_delay attempt * (unit / 5)

-- The delay for an attempt that is not negative. The range is below the delay, so no difference here
-- falls below 0 and `max(0, …)` changes nothing.
unfoldable pub jittered : ℕ → ℕ → ℕ → ℕ
jittered unit draw attempt =
    min (capped_delay attempt * unit - jitter_range unit attempt + draw) (max_delay_ms * unit)
    / unit

unfoldable pub compute_backoff : ℕ → ℕ → ℤ → Result Exn ℕ
compute_backoff unit draw (negsuc n) = err (exn value_error "attempt must be >= 0")
compute_backoff unit draw (pos attempt) = ok (jittered unit draw attempt)

-- `{**original_payload, "attempt": attempt + 1}` and the headers
unfoldable pub build_retry_message : ℕ → ℕ → Dict → ℤ → Result Exn (Dict × List (String × ℕ))
build_retry_message unit draw original_payload attempt = elim (compute_backoff unit draw attempt) [
  | err e ↦ err e
  | ok delay ↦ ok (insert "attempt" (int (succ attempt)) original_payload, ("x-delay", delay) ∷ [])
]

abbrev pub attempts_made : Option Json → Result Exn Json
attempts_made none = ok (int (pos 1))
attempts_made (some (int n)) = ok (int (succ n))
attempts_made (some v) = err (exn type_error "unsupported operand type(s) for +")

unfoldable pub build_dead_letter_message : ℕ → Dict → String → Result Exn Dict
build_dead_letter_message now original_payload final_error =
    elim (attempts_made (lookup "attempt" original_payload)) [
      | err e ↦ err e
      | ok made ↦ ok (
          insert "attempts_made" made (
            insert "failed_at" (int (pos now))
              (insert "final_error" (text final_error) original_payload)))
    ]
