-- ===== src/Gateway/Security.antt =====
-- gateway/core/security.py, and the parts of a request that the gateway reads. `str.lower`, the
-- decoder of python-jose, `hashlib.sha256` and `uuid.uuid4` are parameters.
use Prim.Native.Char.{Char, code}
use Prim.Native.String.{String, [] as nil, ◌∷◌ as ◌∷ₛ◌}
use filo_j.Prelude.{Option, none, some, List, [], ◌∷◌, Result, ok, err, nat_eq, if◌then◌else◌, ◌==◌}
use filo_j.Shared.Errors.{Exn, exn, http_exception}

-- `headers` answers `request.headers.get`, by the name in lower case.
pub record Request : Type 0 where
  pub method : String
  pub headers : String → Option String
  pub query_params : List (String × String)

pub record Libraries : Type 0 where
  pub lower : String → String
  -- `none` is a `JWTError`
  pub jwt_decode : String → String → String → Option (List (String × String))
  pub sha256 : String → String
  pub uuid4 : String

abbrev pub push_front : Char → List String → List String
push_front c [] = (c ∷ₛ nil) ∷ []
push_front c (w ∷ ws) = (c ∷ₛ w) ∷ ws

-- `s.split(" ")`
unfoldable pub split_space : String → List String
split_space nil = nil ∷ []
split_space (c ∷ₛ s) =
    let rest = split_space s in if nat_eq (code c) 32 then nil ∷ rest else push_front c rest

module _ (lib : Libraries) where
  abbrev bearer_parts : List String → Result Exn String
  bearer_parts (scheme ∷ token ∷ []) =
      if lib.lower scheme == "bearer"
      then ok token
      else err (exn (http_exception 401) "Invalid Authorization header format")
  bearer_parts _ = err (exn (http_exception 401) "Invalid Authorization header format")

  abbrev bearer_header : Option String → Result Exn String
  bearer_header none = err (exn (http_exception 401) "No auth headers")
  bearer_header (some h) =
      if h == ""
      then err (exn (http_exception 401) "No auth headers")
      else bearer_parts (split_space h)

  unfoldable pub extract_bearer_headers : Request → Result Exn String
  extract_bearer_headers request = bearer_header (request.headers "authorization")

  unfoldable pub decode_token : String → String → String → Result Exn (List (String × String))
  decode_token secret algorithm bearer_token = elim (lib.jwt_decode bearer_token secret algorithm) [
    | some token ↦ ok token
    | none ↦ err (exn (http_exception 401) "Invalid or expired token")
  ]

  unfoldable pub hash_key : String → String
  hash_key api_key = lib.sha256 api_key
