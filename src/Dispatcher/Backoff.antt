-- ===== src/Dispatcher/Backoff.antt =====
-- dispatcher/utils/retry.py: the range of `compute_backoff`.
use native.Mathlib.Nat.{mul-le-mul_right}
use filo_j.Prelude.{ℕ, suc, ◌+◌, ◌-◌, ◌*◌, ◌/◌, ◌≤◌, ◌<◌, ◌≡◌, refl, arith, ok}
use filo_j.Shared.Values.{pos}
use filo_j.Dispatcher.Retry.{
  max_delay_ms, min, capped_delay, jitter_range, jittered, compute_backoff,
}

le_div : (k m x : ℕ) → 0 < m → k * m ≤ x → k ≤ x / m
le_div k m x h le = grind arith

div_le : (k m x : ℕ) → 0 < m → x < suc k * m → x / m ≤ k
div_le k m x h lt = grind arith

-- Parts of a delay: four fifths of it, and a fifth.
module _ (c u draw : ℕ) (some_unit : 0 < u) (in_range : draw ≤ 2 * (c * u)) where
  delay_parts : c * (5 * u) - c * u + draw ≡ 4 * (c * u) + draw
  delay_parts = omega arith

  fifth_low : (k : ℕ) → 5 * k ≤ 4 * c → k * (5 * u) ≤ 4 * (c * u) + draw
  fifth_low k h = omega (arith, mul-le-mul_right u h)

  fifth_high : (k : ℕ) → 6 * c < 5 * suc k → 4 * (c * u) + draw < suc k * (5 * u)
  fifth_high k h = omega (arith, mul-le-mul_right u h)

  low_part : c * 4 / 5 ≤ (4 * (c * u) + draw) / (5 * u)
  low_part = le_div (c * 4 / 5) (5 * u) _ (omega arith) (fifth_low (c * 4 / 5) (omega arith))

  high_part : (4 * (c * u) + draw) / (5 * u) ≤ c * 6 / 5
  high_part = div_le (c * 6 / 5) (5 * u) _ (omega arith) (fifth_high (c * 6 / 5) (omega arith))

  low_cap : c ≤ max_delay_ms → c * 4 / 5 ≤ max_delay_ms * (5 * u) / (5 * u)
  low_cap h =
      le_div (c * 4 / 5) (5 * u) _ (omega arith)
        (omega (arith, mul-le-mul_right {m = c * 4 / 5} {n = max_delay_ms} (5 * u) (omega arith)))

  below_cap :
      4 * (c * u) + draw ≤ max_delay_ms * (5 * u) → (4 * (c * u) + draw) / (5 * u) ≤ max_delay_ms
  below_cap h = div_le max_delay_ms (5 * u) _ (omega arith) (omega arith)

  high_cap :
      max_delay_ms * (5 * u) < 4 * (c * u) + draw → max_delay_ms * (5 * u) / (5 * u) ≤ c * 6 / 5
  high_cap h =
      div_le (c * 6 / 5) (5 * u) _ (omega arith)
        (omega (arith, h, fifth_high (c * 6 / 5) (omega arith)))

  at_cap : max_delay_ms * (5 * u) / (5 * u) ≤ max_delay_ms
  at_cap = div_le max_delay_ms (5 * u) _ (omega arith) (omega arith)

  delay_bounds :
      c ≤ max_delay_ms
      → let d = min (c * (5 * u) - c * u + draw) (max_delay_ms * (5 * u)) / (5 * u) in
        (c * 4 / 5 ≤ d) × (d ≤ c * 6 / 5) × (d ≤ max_delay_ms)
  delay_bounds h =
      rw delay_parts (ground (arith, low_part, high_part, low_cap h, below_cap, high_cap, at_cap))

unit_fifth : (u : ℕ) → 5 * u / 5 ≡ u
unit_fifth u = omega arith

capped_delay-le : (attempt : ℕ) → capped_delay attempt ≤ max_delay_ms
unfolding capped_delay
capped_delay-le attempt = ground arith

jitter_range_fifth : (u attempt : ℕ) → jitter_range (5 * u) attempt ≡ capped_delay attempt * u
unfolding jitter_range
jitter_range_fifth u attempt = rw (unit_fifth u) refl

jittered_fifth :
    (u draw attempt : ℕ)
    → jittered (5 * u) draw attempt
      ≡ min
          (capped_delay attempt * (5 * u) - capped_delay attempt * u + draw)
          (max_delay_ms * (5 * u))
        / (5 * u)
unfolding jittered
jittered_fifth u draw attempt = rw (jitter_range_fifth u attempt) refl

-- For an attempt that is not negative and a draw in its range, the delay exists, lies between four
-- fifths and six fifths of the capped exponential delay (rounded down), and never passes
-- `MAX_DELAY_MS`.
pub compute_backoff_bounds :
    (u draw attempt : ℕ)
    → 0 < u
    → draw ≤ 2 * jitter_range (5 * u) attempt
    → (d : ℕ) × (compute_backoff (5 * u) draw (pos attempt) ≡ ok d)
      × (capped_delay attempt * 4 / 5 ≤ d)
      × (d ≤ capped_delay attempt * 6 / 5)
      × (d ≤ max_delay_ms)
unfolding compute_backoff
compute_backoff_bounds u draw attempt some_unit in_range =
    let range = jitter_range_fifth u attempt in
    let c = capped_delay attempt in
    let bounds = delay_bounds c u draw some_unit (rw range at in_range) (capped_delay-le attempt) in
    let same = jittered_fifth u draw attempt in
    (jittered (5 * u) draw attempt, refl, rw same bounds.0, rw same bounds.1, rw same bounds.2)
