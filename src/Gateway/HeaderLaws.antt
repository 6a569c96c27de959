-- ===== src/Gateway/HeaderLaws.antt =====
-- Which headers `HeaderBuilder.to_dict` sends.
use filo_j.Prelude.{
  String, ◌≡◌, ◌&&◌, Option, none, some, arith, lookup, lookup-insert, is_truthy, if◌then◌else◌,
  ◌==◌,
}
use filo_j.Gateway.Headers.{HeaderBuilder, Headers, set_if, to_dict}

-- The entry of a header that is only sent if it has a value.
abbrev pub when_truthy : Option String → Option (Option String)
when_truthy v = if is_truthy v then some v else none

lookup-set_if :
    (k name : String) (v : Option String) (h : Headers)
    → lookup k (set_if name v h) ≡ (if name == k && is_truthy v then some v else lookup k h)
lookup-set_if k name v h = ground (arith, lookup-insert name k v h)

-- The secret and the request id are always sent, and each other header exactly if it has a value
-- that is not empty, with this value.
pub to_dict_lem :
    (b : HeaderBuilder)
    → (lookup "x-internal-secret" (to_dict b) ≡ some b.internal_secret)
      × (lookup "x-request-id" (to_dict b) ≡ some b.request_id)
      × (lookup "content-type" (to_dict b) ≡ when_truthy b.content_type)
      × (lookup "accept" (to_dict b) ≡ when_truthy b.accept)
      × (lookup "x-developer-id" (to_dict b) ≡ when_truthy b.developer_id)
      × (lookup "x-developer-plan" (to_dict b) ≡ when_truthy b.developer_plan)
      × (lookup "cookie" (to_dict b) ≡ when_truthy b.cookie)
unfolding to_dict
to_dict_lem b = (
  simp lookup-set_if,
  simp lookup-set_if,
  simp lookup-set_if,
  simp lookup-set_if,
  simp lookup-set_if,
  simp lookup-set_if,
  simp lookup-set_if,
)
