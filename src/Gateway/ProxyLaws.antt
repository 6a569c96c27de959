-- ===== src/Gateway/ProxyLaws.antt =====
-- Whom the gateway's requests speak for, and what it passes back.
use filo_j.Prelude.{
  All, ℕ, String, ◌≡◌, ◌≢◌, ◌⊎◌, inl, inr, refl, ap, true, false, Option, some, List, [], ◌∷◌, ◌++◌,
  map, Result, err, arith, elem, lookup, Bool-cases, eq_iff, ◌==◌, ◌||◌, lift, ◌>>=◌,
}
use filo_j.Shared.Errors.{Exn, exn, http_exception}
use filo_j.Shared.Redis.{Redis}
use filo_j.Shared.World.{Faults}
use filo_j.Gateway.Config.{Settings}
use filo_j.Gateway.Security.{Request, Libraries, extract_bearer_headers, hash_key}
use filo_j.Gateway.Headers.{from_request}
use filo_j.Gateway.ApiKeyRepo.{Cache}
use filo_j.Gateway.Handlers.{
  ServiceHandler, auth_service_handler, file_service_handler, should_handle, token_context,
  auth_context, file_context, key_context, AuthRpc,
}
use filo_j.Gateway.Proxy.{
  Outgoing, Response, Sent, service_handlers, allowed_response_headers, get_service_url,
  filter_response_headers, to_client, get_context, build_request, proxy_request, gateway,
}

module _ (lower : String → String) where
  -- A header that the gateway may pass back to its client.
  abbrev pub MayPass : String × String → Type 0
  MayPass h =
      ((lower h.0 == "content-type"
          || (lower h.0 == "content-disposition"
              || (lower h.0 == "cache-control" || lower h.0 == "x-request-id")))
        ≡ true)
      ⊎ (h.0 ≡ "set-cookie")

  All-cookies :
      (cookies : List String) → All MayPass (map (λ cookie. ("set-cookie", cookie)) cookies)
  All-cookies [] = tt
  All-cookies (c ∷ cs) = (inr refl, All-cookies cs)

  All-filtered :
      (hs rest : List (String × String))
      → All MayPass rest
      → All MayPass (filter_response_headers lower hs ++ rest)
  unfolding filter_response_headers
  All-filtered [] rest p = p
  All-filtered (h ∷ hs) rest p = elim (Bool-cases (elem (lower h.0) allowed_response_headers)) [
    | inl e ↦ rw e (inl (ground (arith, e)), All-filtered hs rest p)
    | inr e ↦ rw e (All-filtered hs rest p)
  ]

  -- Every header that a client gets is named `Content-Type`, `Content-Disposition`, `Cache-Control` or
  -- `X-Request-ID`, in any case, or is a cookie.
  pub to_client-MayPass : (response : Response) → All MayPass (to_client lower response).headers
  unfolding to_client
  to_client-MayPass response = All-filtered response.headers _ (All-cookies response.set_cookies)

module _ (lib : Libraries) (settings : Settings) (r : Redis) (fault : Faults) (rpc : AuthRpc)
    (window : ℕ → String) (fuel : ℕ) (send : Outgoing → Sent) where
  -- A service other than `file` and `auth` is answered by 404 before any external call.
  pub gateway_unknown :
      (service path : String) (request : Request) (c : Cache r)
      → service ≢ "file"
      → service ≢ "auth"
      → gateway lib settings r fault rpc window fuel send service path request c
        ≡ (err (exn (http_exception 404) "Service not found"), c)
  unfolding gateway proxy_request build_request get_service_url
  gateway_unknown service path request c not_file not_auth =
      ground (arith, eq_iff "file" service, eq_iff "auth" service)

  extract_same :
      (request : Request) (headers : String → Option String)
      → headers "authorization" ≡ request.headers "authorization"
      → extract_bearer_headers lib (record request { headers = headers })
        ≡ extract_bearer_headers lib request
  unfolding extract_bearer_headers
  extract_same request headers e = rw e refl

  get_context_same :
      (handler : ServiceHandler) (request : Request) (headers : String → Option String)
      → headers "authorization" ≡ request.headers "authorization"
      → get_context lib settings r fault rpc window fuel handler
          (record request { headers = headers })
        ≡ get_context lib settings r fault rpc window fuel handler request
  unfolding get_context auth_context file_context
  get_context_same auth_service_handler request headers e =
      ap (λ (t : Result Exn String). lift {S = Cache r} (token_context lib settings t))
        (extract_same request headers e)
  get_context_same file_service_handler request headers e =
      ap
        (λ (t : Result Exn String).
          lift {S = Cache r} t >>= λ k. key_context r fault rpc window fuel (hash_key lib k))
        (extract_same request headers e)

  -- On a path that a handler takes care of, nothing that a client writes into the headers
  -- `x-developer-id` and `x-developer-plan` has an effect: the answer, the request that is sent and
  -- the cache are those of the same request with any other values of these two.
  pub gateway_ignores_identity :
      (service path : String) (handler : ServiceHandler) (request : Request)
      (headers : String → Option String) (c : Cache r)
      → lookup service service_handlers ≡ some handler
      → should_handle handler path ≡ true
      → ((name : String)
          → (name == "x-developer-id") ≡ false
          → (name == "x-developer-plan") ≡ false
          → headers name ≡ request.headers name)
      → gateway lib settings r fault rpc window fuel send service path
          (record request { headers = headers })
          c
        ≡ gateway lib settings r fault rpc window fuel send service path request c
  unfolding gateway proxy_request build_request from_request
  gateway_ignores_identity service path handler request headers c hh hs same = rw (
    hh,
    hs,
    get_context_same handler request headers (same "authorization" refl refl),
    same "content-type" refl refl,
    same "accept" refl refl,
    same "x-request-id" refl refl,
    same "cookie" refl refl,
  )
