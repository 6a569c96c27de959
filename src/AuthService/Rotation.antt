-- ===== src/AuthService/Rotation.antt =====
-- auth_service/routes/auth.py: the use of one refresh token by `refresh`.
use filo_j.Prelude.{
  ℕ, suc, String, ◌≡◌, ◌≢◌, inl, inr, refl, ap, Bool, true, false, not, ◌&&◌, ◌||◌, Option, none,
  some, List, [], ◌∷◌, ◌++◌, map, elem, select, ok, arith, nat_eq, Exec, raise_if, gets, ◌>>◌, ltb,
  ◌==◌, ◌>>=◌, eq_iff, ◌∙◌, sym, Bool-cases,
}
use filo_j.Shared.Errors.{Exn, exn, http_exception}
use filo_j.Shared.World.{Faults}
use filo_j.AuthService.Models.{Developer, RefreshToken}
use filo_j.AuthService.Session.{
  Session, query, new_request, is_unique, one_or_none, commit, rollback,
}
use filo_j.AuthService.Session.Inversion.{raise_if-passed, query-answered}
use filo_j.AuthService.Utils.{Libraries, Environment, set_refresh_cookie}
use filo_j.AuthService.Tokens.{
  AuthResponse, revoke_row, revoke, new_refresh_token, try_issue, issue_tokens, rotate,
  checked_token, refresh,
}

-- Every row with this token is revoked.
abbrev pub IsSpent : String → List RefreshToken → Type 0
IsSpent t [] = Unit
IsSpent t (row ∷ rows) = ((row.token == t) ≡ true → row.is_revoked ≡ true) × IsSpent t rows

abbrev pub with_token : String → List RefreshToken → List RefreshToken
with_token t rows = select (λ row. row.token == t) rows

pub revoke-none :
    (t : String) (id : ℕ) (rows : List RefreshToken)
    → with_token t rows ≡ []
    → IsSpent t (map (revoke_row id) rows)
revoke-none t id [] h = tt
revoke-none t id (row ∷ rows) h = elim (Bool-cases (row.token == t)) [
  | inl e ↦ absurd (ground arith)
  | inr e ↦ ground (arith, revoke-none t id rows)
]

pub revoke-one :
    (t : String) (k : RefreshToken) (rows : List RefreshToken)
    → with_token t rows ≡ k ∷ []
    → IsSpent t (map (revoke_row k.id) rows)
revoke-one t k [] h = tt
revoke-one t k (row ∷ rows) h = elim (Bool-cases (row.token == t)) [
  | inl e ↦ ground (arith, revoke-none t k.id rows)
  | inr e ↦ ground (arith, revoke-one t k rows)
]

pub one_or_none-some :
    {A : Type 0} (rows : List A) (k : A) → one_or_none rows ≡ ok (some k) → rows ≡ k ∷ []
one_or_none-some [] k h = cc
one_or_none-some (x ∷ []) k h = cc
one_or_none-some (x ∷ y ∷ rest) k h = cc

elem-revoke :
    (t : String) (id : ℕ) (k : RefreshToken) (rows : List RefreshToken)
    → with_token t rows ≡ k ∷ []
    → elem t (map (λ (row : RefreshToken). row.token) (map (revoke_row id) rows)) ≡ true
elem-revoke t id k [] h = cc
elem-revoke t id k (row ∷ rows) h = elim (Bool-cases (row.token == t)) [
  | inl e ↦ ground (arith, eq_iff row.token t, eq_iff t row.token)
  | inr e ↦ ground (arith, elem-revoke t id k rows)
]

elem-last :
    (a : String) (xs : List RefreshToken) (y : RefreshToken)
    → elem a (map (λ (row : RefreshToken). row.token) (xs ++ y ∷ [])) ≡ false
    → (a == y.token) ≡ false
elem-last a [] y h = ground arith
elem-last a (x ∷ xs) y h = ground (arith, elem-last a xs y)

is_unique-append :
    (xs : List RefreshToken) (y : RefreshToken)
    → is_unique (map (λ (row : RefreshToken). row.token) (xs ++ y ∷ [])) ≡ true
    → elem y.token (map (λ (row : RefreshToken). row.token) xs) ≡ false
is_unique-append [] y h = refl
is_unique-append (x ∷ xs) y h = ground (
  arith,
  is_unique-append xs y,
  elem-last x.token xs y,
  eq_iff y.token x.token,
  eq_iff x.token y.token,
)

IsSpent-append :
    (t : String) (xs : List RefreshToken) (y : RefreshToken)
    → IsSpent t xs
    → (y.token == t) ≡ false
    → IsSpent t (xs ++ y ∷ [])
IsSpent-append t [] y h n = ground arith
IsSpent-append t (x ∷ xs) y h n = (h.0, IsSpent-append t xs y h.1 n)

-- `IsSpent` as a test
abbrev pub is_spent : String → List RefreshToken → Bool
is_spent t [] = true
is_spent t (row ∷ rows) = (not (row.token == t) || row.is_revoked) && is_spent t rows

pub IsSpent-is_spent :
    (t : String) (rows : List RefreshToken) → IsSpent t rows → is_spent t rows ≡ true
IsSpent-is_spent t [] h = refl
IsSpent-is_spent t (row ∷ rows) h = ground (arith, IsSpent-is_spent t rows h.1)

differ : (a b : String) (xs : List String) → elem a xs ≡ false → elem b xs ≡ true → (a == b) ≡ false
differ a b xs h h' = elim (Bool-cases (a == b)) [ inl e ↦ ground (arith, eq_iff a b) | inr e ↦ e ]

is_spent-rotated :
    (t : String) (k new : RefreshToken) (rows : List RefreshToken)
    → with_token t rows ≡ k ∷ []
    → is_unique (map (λ (row : RefreshToken). row.token) (map (revoke_row k.id) rows ++ new ∷ []))
      ≡ true
    → is_spent t (map (revoke_row k.id) rows ++ new ∷ []) ≡ true
is_spent-rotated t k new rows one unique = IsSpent-is_spent t _ (
    IsSpent-append t (map (revoke_row k.id) rows) new (revoke-one t k rows one) (
      differ new.token t (map (λ (row : RefreshToken). row.token) (map (revoke_row k.id) rows))
        (is_unique-append (map (revoke_row k.id) rows) new unique) (elem-revoke t k.id k rows one)))

module _ (lib : Libraries) (env : Environment) (fault : Faults) where
  -- Where a successful rotation of the row `k` ends: with `k` revoked and one new row committed.
  record Rotated (k : RefreshToken) (s s' : Session) : Type 0 where
    new : RefreshToken
    rows : s'.committed.refresh_tokens ≡ map (revoke_row k.id) s.tables.refresh_tokens ++ new ∷ []
    consistent :
        is_unique (
          map
            (λ (row : RefreshToken). row.token)
            (map (revoke_row k.id) s.tables.refresh_tokens ++ new ∷ []))
        ≡ true

  Rotated-is_spent :
      (t : String) (k : RefreshToken) (s s' : Session)
      → with_token t s.tables.refresh_tokens ≡ k ∷ []
      → Rotated k s s'
      → is_spent t s'.committed.refresh_tokens ≡ true
  Rotated-is_spent t k s s' one m =
      ap (is_spent t) m.rows ∙ is_spent-rotated t k m.new s.tables.refresh_tokens one m.consistent

  rotate-Rotated :
      (k : RefreshToken) (found : Option Developer) (s : Session) {r : AuthResponse}
      → (rotate lib env fault k found s).0 ≡ ok r
      → Rotated k s (rotate lib env fault k found s).1
  unfolding issue_tokens try_issue commit rollback revoke set_refresh_cookie
  rotate-Rotated k none s h = absurd (cc)
  rotate-Rotated k (some developer) s h = record {
    new = new_refresh_token lib env fault developer (record s { calls = suc s.calls });
    rows = ground arith;
    consistent = ground arith;
  }

  rotate-is_spent :
      (t : String) (k : RefreshToken) (found : Option Developer) (s : Session) {r : AuthResponse}
      → with_token t s.tables.refresh_tokens ≡ k ∷ []
      → (rotate lib env fault k found s).0 ≡ ok r
      → is_spent t (rotate lib env fault k found s).1.committed.refresh_tokens ≡ true
  rotate-is_spent t k found s one h = Rotated-is_spent t k s _ one (rotate-Rotated k found s h)

  abbrev invalid : Exn
  invalid = exn (http_exception 401) "Invalid or expired refresh token"

  abbrev no_token : Exn
  no_token = exn (http_exception 401) "No refresh token"

  -- What `refresh` does with a row that is not revoked, and with one that is in time too
  abbrev of_developer : RefreshToken → Exec Session Exn AuthResponse
  of_developer k =
      query fault (λ t. t.developers) (λ d. nat_eq d.id k.developer_id) >>= rotate lib env fault k

  abbrev of_valid : RefreshToken → Exec Session Exn AuthResponse
  of_valid k = gets (λ s. lib.now s.calls) >>= λ now.
      raise_if (ltb k.expires_at now) invalid >> of_developer k

  abbrev of_token : String → Exec Session Exn AuthResponse
  of_token t =
      query fault (λ t. t.refresh_tokens) (λ k. k.token == t) >>= checked_token lib env fault

  checked_token-is_spent :
      (t : String) (k : RefreshToken) (s : Session) {r : AuthResponse}
      → with_token t s.tables.refresh_tokens ≡ k ∷ []
      → (checked_token lib env fault (some k) s).0 ≡ ok r
      → is_spent t (checked_token lib env fault (some k) s).1.committed.refresh_tokens ≡ true
  checked_token-is_spent t k s one h =
      let valid = raise_if-passed k.is_revoked invalid (of_valid k) s h in
      let in_time =
        raise_if-passed (ltb k.expires_at (lib.now s.calls)) invalid (of_developer k) s
          (ap (λ p. p.0) (sym valid.1) ∙ h) in
      let asked =
        query-answered fault (λ t. t.developers) (λ d. nat_eq d.id k.developer_id)
          (rotate lib env fault k) s (ap (λ p. p.0) (sym (valid.1 ∙ in_time.1)) ∙ h) in
      let all = valid.1 ∙ (in_time.1 ∙ asked.2) in
      ap (λ p. is_spent t p.1.committed.refresh_tokens) all
      ∙ rotate-is_spent t k asked.0 _ one (ap (λ p. p.0) (sym all) ∙ h)

  -- The row that a refresh has found
  refresh_of-is_spent :
      (t : String) (found : Option RefreshToken) (s : Session) {r : AuthResponse}
      → one_or_none (with_token t s.tables.refresh_tokens) ≡ ok found
      → (checked_token lib env fault found s).0 ≡ ok r
      → is_spent t (checked_token lib env fault found s).1.committed.refresh_tokens ≡ true
  refresh_of-is_spent t none s e h = absurd (cc)
  refresh_of-is_spent t (some k) s e h = checked_token-is_spent t k s (one_or_none-some _ k e) h

  -- After a refresh that answered, every row with its token is revoked.
  refresh-is_spent :
      (t : String) (s : Session) {r : AuthResponse}
      → (refresh lib env fault (some t) s).0 ≡ ok r
      → is_spent t (refresh lib env fault (some t) s).1.committed.refresh_tokens ≡ true
  unfolding refresh
  refresh-is_spent t s h =
      let given = raise_if-passed (t == "") no_token (of_token t) s h in
      let asked =
        query-answered fault (λ t. t.refresh_tokens) (λ k. k.token == t)
          (checked_token lib env fault) s (ap (λ p. p.0) (sym given.1) ∙ h) in
      let all = given.1 ∙ asked.2 in
      ap (λ p. is_spent t p.1.committed.refresh_tokens) all
      ∙ refresh_of-is_spent t asked.0 _ asked.1 (ap (λ p. p.0) (sym all) ∙ h)

  select-is_spent :
      (t : String) (k : RefreshToken) (rows : List RefreshToken)
      → is_spent t rows ≡ true
      → with_token t rows ≡ k ∷ []
      → k.is_revoked ≡ true
  select-is_spent t k [] h e = absurd (cc)
  select-is_spent t k (row ∷ rows) h e = elim (Bool-cases (row.token == t)) [
    | inl e' ↦ ground arith
    | inr e' ↦ ground (arith, select-is_spent t k rows)
  ]

  spent_row-refused :
      (t : String) (found : Option RefreshToken) (s : Session) {r : AuthResponse}
      → is_spent t s.tables.refresh_tokens ≡ true
      → one_or_none (with_token t s.tables.refresh_tokens) ≡ ok found
      → (checked_token lib env fault found s).0 ≢ ok r
  spent_row-refused t none s spent e h = absurd (cc)
  spent_row-refused t (some k) s spent e h =
      let valid = raise_if-passed k.is_revoked invalid (of_valid k) s h in
      let revoked = select-is_spent t k _ spent (one_or_none-some _ k e) in absurd (cc)

  pub is_spent-refused :
      (t : String) (s : Session) {r : AuthResponse}
      → is_spent t s.tables.refresh_tokens ≡ true
      → (refresh lib env fault (some t) s).0 ≢ ok r
  unfolding refresh
  is_spent-refused t s spent h =
      let given = raise_if-passed (t == "") no_token (of_token t) s h in
      let asked =
        query-answered fault (λ t. t.refresh_tokens) (λ k. k.token == t)
          (checked_token lib env fault) s (ap (λ p. p.0) (sym given.1) ∙ h) in
      spent_row-refused t asked.0 _ spent asked.1 (ap (λ p. p.0) (sym (given.1 ∙ asked.2)) ∙ h)

  -- After a refresh that answers, whichever calls fail, a request that follows with the same token is
  -- refused.
  pub refresh_once :
      (t : String) (s : Session) {r r' : AuthResponse}
      → (refresh lib env fault (some t) s).0 ≡ ok r
      → (refresh lib env fault (some t) (new_request (refresh lib env fault (some t) s).1)).0
        ≢ ok r'
  refresh_once t s h = is_spent-refused t _ (refresh-is_spent t s h)
