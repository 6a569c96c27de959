-- ===== src/AuthService/ApiKeyLaws.antt =====
-- auth_service/routes/api_keys.py and auth_service/services/auth.py: the API key that is created and found.
use filo_j.Prelude.{
  ℕ, suc, String, ◌≡◌, refl, ap, sym, ◌∙◌, true, ◌&&◌, Option, none, some, List, [], ◌∷◌, ◌++◌, map,
  elem, select, ok, lift, ◌>>=◌, arith, nat_eq, ◌==◌, eq_refl, eq_iff,
}
use filo_j.Shared.World.{Faults}
use filo_j.AuthService.Models.{Developer, ApiKey, Tables}
use filo_j.AuthService.Session.{Session, new_request, is_unique, query, commit}
use filo_j.AuthService.Session.Inversion.{query-answered}
use filo_j.AuthService.Utils.{Libraries, Environment, get_current_developer}
use filo_j.AuthService.Services.{get_api_key_developer}
use filo_j.AuthService.ApiKeys.{new_api_key, create_unless, create_apikey}

abbrev hashes : List ApiKey → List String
hashes keys = map (λ (k : ApiKey). k.key_hash) keys

elem-last : (keys : List ApiKey) (k : ApiKey) → elem k.key_hash (hashes (keys ++ k ∷ [])) ≡ true
elem-last [] k = ground (arith, eq_refl k.key_hash)
elem-last (x ∷ keys) k = ground (arith, elem-last keys k)

-- With unique hashes, the hash of the last key is found once.
select-last :
    (keys : List ApiKey) (k : ApiKey)
    → is_unique (hashes (keys ++ k ∷ [])) ≡ true
    → select (λ (x : ApiKey). x.key_hash == k.key_hash) (keys ++ k ∷ []) ≡ k ∷ []
select-last [] k h = ground (arith, eq_refl k.key_hash)
select-last (x ∷ keys) k h =
    ground (arith, h, eq_iff x.key_hash k.key_hash, elem-last keys k, select-last keys k)

module _ (lib : Libraries) (env : Environment) (fault : Faults) (tag_of : String → String) where
  -- What a successful creation leaves committed
  stored :
      (name : String) (id : ℕ) (found : Option ApiKey) (s : Session) {raw : String}
      → (create_unless lib env fault tag_of name id found s).0 ≡ ok raw
      → ((create_unless lib env fault tag_of name id found s).1.committed ≡ record s.tables {
        api_keys = s.tables.api_keys ++ new_api_key lib env fault tag_of name id s ∷ [];
      })
        × (lib.sha256 raw ≡ (new_api_key lib env fault tag_of name id s).key_hash)
        × (is_unique (hashes (s.tables.api_keys ++ new_api_key lib env fault tag_of name id s ∷ []))
            ≡ true)
  unfolding commit
  stored name id (some key) s h = absurd (cc)
  stored name id none s h = ground arith

  -- What a lookup finds of such a row, if its queries do not fail
  key_found :
      (k : ApiKey) (d : Developer) (hash : String) (s : Session)
      → hash ≡ k.key_hash
      → select (λ (x : ApiKey). x.key_hash == k.key_hash) s.tables.api_keys ≡ k ∷ []
      → select (λ (x : Developer). nat_eq x.id k.developer_id) s.tables.developers ≡ d ∷ []
      → d.is_active ≡ true
      → k.is_active ≡ true
      → fault s.calls ≡ none
      → fault (suc s.calls) ≡ none
      → (get_api_key_developer fault hash s).0 ≡ ok (d, "active")
  unfolding get_api_key_developer
  key_found k d hash s same one its active valid first second =
      rw same (ground (arith, one, its, active, valid, first, second))

  -- The raw key that `create_apikey` answers is found under its SHA-256 digest by a later
  -- request, as an active key of the active developer that created it, if its two queries do not fail.
  pub create_apikey-get_api_key_developer :
      (header : Option String) (name : String) (id : ℕ) (d : Developer) (s : Session) {raw : String}
      → get_current_developer lib env header ≡ ok id
      → select (λ (x : Developer). nat_eq x.id id) s.tables.developers ≡ d ∷ []
      → d.is_active ≡ true
      → (create_apikey lib env fault tag_of header name s).0 ≡ ok raw
      → fault (create_apikey lib env fault tag_of header name s).1.calls ≡ none
      → fault (suc (create_apikey lib env fault tag_of header name s).1.calls) ≡ none
      → (get_api_key_developer fault
          (lib.sha256 raw)
          (new_request (create_apikey lib env fault tag_of header name s).1)).0
        ≡ ok (d, "active")
  unfolding create_apikey
  create_apikey-get_api_key_developer header name id d s {raw} current its active done first
        second =
      let test = λ (k : ApiKey). k.name == name && nat_eq k.developer_id id in
      let named =
        ap
          (λ x.
            (lift x >>= λ developer_id.
            query fault (λ t. t.api_keys)
              (λ (k : ApiKey). k.name == name && nat_eq k.developer_id developer_id)
            >>= create_unless lib env fault tag_of name developer_id)
              s)
          current in
      let asked =
        query-answered fault (λ t. t.api_keys) test (create_unless lib env fault tag_of name id) s
          (ap (λ q. q.0) (sym named) ∙ done) in
      let s1 = record s { calls = suc s.calls } in
      let all = named ∙ asked.2 in
      let made = stored name id asked.0 s1 (ap (λ q. q.0) (sym all) ∙ done) in
      let k = new_api_key lib env fault tag_of name id s1 in
      let kept = ap (λ q. q.1.committed) all ∙ made.0 in
      key_found k d (lib.sha256 raw)
        (new_request (create_apikey lib env fault tag_of header name s).1) made.1
        (ap (λ (t : Tables). select (λ (x : ApiKey). x.key_hash == k.key_hash) t.api_keys) kept
          ∙ select-last s.tables.api_keys k made.2)
        (ap (λ (t : Tables). select (λ (x : Developer). nat_eq x.id id) t.developers) kept ∙ its)
        active refl first second
