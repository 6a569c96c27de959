-- ===== src/AuthService/Process.antt =====
-- auth_service/main.py: `lifespan`, and the answers to a request whose handler raises. The status and the
-- text of an `HTTPException` are those that its handler is given.
use filo_j.Prelude.{ℕ, String, List, [], ◌∷◌, Exec, ◌>>◌}
use filo_j.Shared.Errors.{Exn, ExnClass, http_exception}
use filo_j.Shared.World.{World, Faults, call}

pub record JsonResponse : Type 0 where
  pub status_code : ℕ
  pub content : List (String × String)

abbrev pub http_exception_handler : ℕ → String → JsonResponse
http_exception_handler status_code detail = record {
  status_code = status_code;
  content = ("details", detail) ∷ [];
}

abbrev pub global_exception_handler : JsonResponse
global_exception_handler = record {
  status_code = 500;
  content = ("detail", "An unexpected error occurred.") ∷ [];
}

abbrev handler_of : ExnClass → String → JsonResponse
handler_of (http_exception code) message = http_exception_handler code message
handler_of _ message = global_exception_handler

-- The two handlers that the application registers, by the class of the exception
unfoldable pub on_exception : Exn → JsonResponse
on_exception e = handler_of e.class e.message

-- The tables that are missing are made, and the engine is closed behind the `yield`.
unfoldable pub lifespan : Faults → Exec World Exn (Unit {0}) → Exec World Exn (Unit {0})
lifespan fault serving = do call fault (λ w. w); serving; call fault (λ w. w)
