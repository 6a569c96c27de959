-- ===== src/Gateway/Headers.antt =====
-- gateway/utils/headers.py: `HeaderBuilder`. A header's value may be `None`.
use filo_j.Prelude.{
  String, Option, none, some, List, [], ◌∷◌, lookup, insert, is_truthy, if◌then◌else◌,
}
use filo_j.Gateway.Security.{Request}

pub record HeaderBuilder : Type 0 where
  pub content_type : Option String
  pub accept : Option String
  pub developer_id : Option String
  pub developer_plan : Option String
  pub internal_secret : Option String
  pub request_id : Option String
  pub cookie : Option String

abbrev pub Headers : Type 0
Headers = List (String × Option String)

abbrev or_default : Option String → String → Option String
or_default none d = some d
or_default (some v) d = some v

-- `from_request`; the secret of the settings and the new UUID are given.
unfoldable pub from_request :
    Option String → String → Request → Option String → Option String → HeaderBuilder
from_request secret uuid4 request developer_id plan = record {
  content_type = or_default (request.headers "content-type") "";
  accept = or_default (request.headers "accept") "";
  developer_id = developer_id;
  developer_plan = plan;
  internal_secret = secret;
  request_id = or_default (request.headers "x-request-id") uuid4;
  cookie = or_default (request.headers "cookie") "";
}

-- `if v: headers[name] = v`
abbrev pub set_if : String → Option String → Headers → Headers
set_if name v headers = if is_truthy v then insert name v headers else headers

unfoldable pub to_dict : HeaderBuilder → Headers
to_dict b = set_if "cookie" b.cookie (
    set_if "x-developer-plan" b.developer_plan (
      set_if "x-developer-id" b.developer_id (
        set_if "accept" b.accept (
          set_if "content-type" b.content_type
            (("x-internal-secret", b.internal_secret) ∷ ("x-request-id", b.request_id) ∷ [])))))

unfoldable pub set_developer_credentials : List (String × String) → HeaderBuilder → HeaderBuilder
set_developer_credentials decoded_token b = record b {
  developer_id = lookup "sub" decoded_token;
  developer_plan = lookup "plan" decoded_token;
}
