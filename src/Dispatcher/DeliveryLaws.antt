-- ===== src/Dispatcher/DeliveryLaws.antt =====
-- How `attempt_delivery` classifies the answers of a webhook.
use filo_j.Prelude.{ℕ, ◌≤◌, ◌<◌, ◌≡◌, ◌⊎◌, inl, inr, refl, true, false, Result, ok, err, arith}
use filo_j.Shared.Errors.{
  Exn, ExnClass, is_dispatch_error, retryable_dispatch_error, permanent_dispatch_error,
  http_status_error,
}
use filo_j.Dispatcher.Delivery.{HttpLibraries, responded, attempt_delivery}

below_or_from : (n k : ℕ) → (n < k) ⊎ (k ≤ n)
below_or_from n k = ground arith

-- How a delivery ends: as a success, or by an exception of a class.
abbrev pub EndsBy : ExnClass → Result Exn (Unit {0}) → Type 0
EndsBy class (ok _) = ⊥
EndsBy class (err e) = e.class ≡ class

-- With a `raise_for_status` that lets 2xx pass and raises for 4xx, a status from 200 on ends in one
-- of four ways: 2xx is a success, 300 to 428 fails for good, 429 and 500 upwards may be retried, and
-- 430 to 499 ends in an exception that is no `DispatchError`.
pub attempt_delivery_classes :
    (lib : HttpLibraries) (code : ℕ)
    → (200 ≤ code → code < 300 → lib.raises_for_status code ≡ false)
    → (400 ≤ code → code < 500 → lib.raises_for_status code ≡ true)
    → 200 ≤ code
    → ((code < 300) × (attempt_delivery lib (responded code) ≡ ok tt))
      ⊎ (((300 ≤ code)
            × (code < 429)
            × EndsBy permanent_dispatch_error (attempt_delivery lib (responded code)))
          ⊎ ((((code ≡ 429) ⊎ (500 ≤ code))
                × EndsBy retryable_dispatch_error (attempt_delivery lib (responded code)))
              ⊎ ((430 ≤ code)
                  × (code < 500)
                  × EndsBy http_status_error (attempt_delivery lib (responded code))
                  × (is_dispatch_error http_status_error ≡ false))))
unfolding attempt_delivery
attempt_delivery_classes lib code passes raises high = elim (below_or_from code 300) [
  | inl below ↦ inl (below, ground arith)
  | inr from ↦ elim (below_or_from code 429) [
    | inl below ↦ inr (inl (from, below, ground arith))
    | inr from429 ↦ elim (below_or_from code 430) [
      | inl same ↦ inr (inr (inl (inl (omega arith), ground arith)))
      | inr from430 ↦ elim (below_or_from code 500) [
        | inl below ↦ inr (inr (inr (from430, below, ground arith, refl)))
        | inr from500 ↦ inr (inr (inl (inr from500, ground arith)))
      ]
    ]
  ]
]
