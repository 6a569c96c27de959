-- ===== src/Gateway/BearerLaws.antt =====
-- Which `Authorization` headers `extract_bearer_headers` accepts.
use Prim.Native.Char.{code}
use Prim.Native.String.{[] as nil, ◌∷◌ as ◌∷ₛ◌, ◌++◌ as ◌++ₛ◌}
use text.Mathlib.TextLemmas.{nil-append, cons-append}
use filo_j.Prelude.{
  String, ◌≡◌, refl, ap, ◌∙◌, Bool, true, ◌&&◌, not, some, [], ◌∷◌, ok, err, arith, nat_eq, eq_iff,
}
use filo_j.Shared.Errors.{Exn, http_exception}
use filo_j.Gateway.Security.{Request, Libraries, split_space, extract_bearer_headers}

abbrev pub no_space : String → Bool
no_space nil = true
no_space (c ∷ₛ s) = not (nat_eq (code c) 32) && no_space s

space-append : (t : String) → " " ++ₛ t ≡ " " ∷ₛ t
space-append t = cons-append " " nil t ∙ ap (λ u. " " ∷ₛ u) (nil-append t)

split-no_space : (t : String) → no_space t ≡ true → split_space t ≡ t ∷ []
unfolding split_space
split-no_space nil h = refl
split-no_space (c ∷ₛ s) h = ground (arith, split-no_space s)

split-append :
    (a b : String) → no_space a ≡ true → split_space (a ++ₛ (" " ++ₛ b)) ≡ a ∷ split_space b
unfolding split_space
split-append nil b h = rw (nil-append (" " ++ₛ b)) (rw (space-append b) refl)
split-append (c ∷ₛ s) b h = rw (cons-append c s (" " ++ₛ b)) (ground (arith, split-append s b))

split_nil : split_space "" ≡ "" ∷ []
unfolding split_space
split_nil = refl

-- Every text without spaces after the scheme `bearer`, in any case, and one space is the token that
-- is found.
pub extract_bearer :
    (lib : Libraries) (request : Request) (scheme token : String)
    → request.headers "authorization" ≡ some (scheme ++ₛ (" " ++ₛ token))
    → no_space scheme ≡ true
    → no_space token ≡ true
    → lib.lower scheme ≡ "bearer"
    → extract_bearer_headers lib request ≡ ok token
unfolding extract_bearer_headers
extract_bearer lib request scheme token h hs ht bearer =
    let header = scheme ++ₛ (" " ++ₛ token) in
    ground (
      arith,
      split-append scheme token hs,
      split-no_space token ht,
      split_nil,
      eq_iff header "",
      eq_iff (lib.lower scheme) "bearer",
    )

-- Whatever else the header holds, the answer is an `HTTPException` with status 401.
extract_bearer_error :
    (lib : Libraries) (request : Request) {e : Exn}
    → extract_bearer_headers lib request ≡ err e
    → e.class ≡ http_exception 401
unfolding extract_bearer_headers
extract_bearer_error lib request h = ground arith
