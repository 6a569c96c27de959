-- ===== src/Shared/Values.antt =====
-- The values of a decoded JSON message, and Python's integers.
use filo_j.Prelude.{
  ℕ, zero, suc, ◌+◌, String, Bool, true, false, none, some, List, lookup, ltb, nat_eq, ◌==◌,
  if◌then◌else◌,
}

-- `negsuc n` is -(n + 1).
pub data ℤ : Type 0 where
  pos : ℕ → ℤ
  negsuc : ℕ → ℤ

-- `n + 1`
abbrev pub succ : ℤ → ℤ
succ (pos n) = pos (n + 1)
succ (negsuc zero) = pos 0
succ (negsuc (suc n)) = negsuc n

-- `n < k` for a bound `k` that is not negative
abbrev pub ltb_ℤ : ℤ → ℕ → Bool
ltb_ℤ (pos n) k = ltb n k
ltb_ℤ (negsuc n) k = true

-- Nested values are only passed on, so `opaque` keeps their truth value and their identity.
pub data Json : Type 0 where
  null : Json
  int : ℤ → Json
  text : String → Json
  opaque : Bool → ℕ → Json

-- A dict with text keys.
abbrev pub Dict : Type 0
Dict = List (String × Json)

-- `d.get(k, default)`
abbrev pub get : String → Json → Dict → Json
get k default d = elim (lookup k d) [ none ↦ default | some v ↦ v ]

-- `bool(v)`
abbrev pub truthy : Json → Bool
truthy null = false
truthy (int (pos n)) = if nat_eq n 0 then false else true
truthy (int (negsuc n)) = true
truthy (text s) = if s == "" then false else true
truthy (opaque b i) = b
