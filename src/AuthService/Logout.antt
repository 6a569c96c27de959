-- ===== src/AuthService/Logout.antt =====
-- auth_service/routes/auth.py: `logout`, and the token of its request.
use filo_j.Prelude.{
  String, ◌≡◌, ◌≢◌, inl, inr, refl, ap, sym, ◌∙◌, true, false, Option, none, some, List, [], ◌∷◌,
  map, Result, ok, err, Exec, modify, ◌>>◌, ◌>>=◌, arith, Bool-cases, ◌==◌,
}
use filo_j.Shared.Errors.{Exn}
use filo_j.Shared.World.{Faults}
use filo_j.AuthService.Models.{RefreshToken, Tables}
use filo_j.AuthService.Session.{Session, new_request, one_or_none, query, commit}
use filo_j.AuthService.Session.Inversion.{query-answered}
use filo_j.AuthService.Utils.{Libraries, Environment, clear_refresh_cookie}
use filo_j.AuthService.Tokens.{AuthResponse, revoke, revoke_row, revoke_found, refresh, logout}
use filo_j.AuthService.Rotation.{
  with_token, is_spent, is_spent-refused, revoke-one, one_or_none-some, IsSpent-is_spent,
}

no_row-is_spent :
    (t : String) (rows : List RefreshToken) → with_token t rows ≡ [] → is_spent t rows ≡ true
no_row-is_spent t [] h = refl
no_row-is_spent t (row ∷ rows) h = elim (Bool-cases (row.token == t)) [
  | inl e ↦ absurd (ground arith)
  | inr e ↦ ground (arith, no_row-is_spent t rows)
]

one_or_none-none : (rows : List RefreshToken) → one_or_none rows ≡ ok none → rows ≡ []
one_or_none-none [] h = refl
one_or_none-none (x ∷ []) h = absurd (cc)
one_or_none-none (x ∷ y ∷ rest) h = absurd (cc)

bind_assoc :
    {A B C : Type 0} (p : Result Exn A × Session) (f : A → Exec Session Exn B)
    (g : Exec Session Exn C) (s : Session)
    → ((λ (_ : Session). p) >>= f >> g) s ≡ ((λ (_ : Session). p) >>= λ a. f a >> g) s
bind_assoc (ok a, s') f g s = refl
bind_assoc (err e, s') f g s = refl

module _ (lib : Libraries) (env : Environment) (fault : Faults) where
  -- The rest of a logout that has found `found`, on a session that sees what is committed.
  abbrev rest : Option RefreshToken → Exec Session Exn (Unit {0})
  rest found = revoke_found lib env fault found >> modify (clear_refresh_cookie lib env)

  rest-is_spent :
      (t : String) (found : Option RefreshToken) (s : Session)
      → s.committed ≡ s.tables
      → one_or_none (with_token t s.tables.refresh_tokens) ≡ ok found
      → (rest found s).0 ≡ ok tt
      → is_spent t (rest found s).1.committed.refresh_tokens ≡ true
  unfolding clear_refresh_cookie revoke commit
  rest-is_spent t none s same e h =
      ap (λ (x : Tables). is_spent t x.refresh_tokens) same
      ∙ no_row-is_spent t s.tables.refresh_tokens (one_or_none-none _ e)
  rest-is_spent t (some k) s same e h = ground (
    arith,
    IsSpent-is_spent t (map (revoke_row k.id) s.tables.refresh_tokens)
        (revoke-one t k s.tables.refresh_tokens (one_or_none-some _ k e)),
  )

  -- The shape of a logout with a token that is not empty
  logout-rest :
      (t : String) (s : Session)
      → (t == "") ≡ false
      → logout lib env fault (some t) s
        ≡ (query fault (λ x. x.refresh_tokens) (λ k. k.token == t) >>= rest) s
  unfolding logout
  logout-rest t s h = rw h (
      bind_assoc (query fault (λ x. x.refresh_tokens) (λ k. k.token == t) s)
        (revoke_found lib env fault) (modify (clear_refresh_cookie lib env)) s)

  -- A logout that returns and has a token leaves no row that would be accepted.
  logout-is_spent :
      (t : String) (s : Session)
      → s.committed ≡ s.tables
      → (t == "") ≡ false
      → (logout lib env fault (some t) s).0 ≡ ok tt
      → is_spent t (logout lib env fault (some t) s).1.committed.refresh_tokens ≡ true
  logout-is_spent t s same h done =
      let shape = logout-rest t s h in
      let asked =
        query-answered fault (λ x. x.refresh_tokens) (λ k. k.token == t) rest s
          (ap (λ p. p.0) (sym shape) ∙ done) in
      let all = shape ∙ asked.2 in
      ap (λ p. is_spent t p.1.committed.refresh_tokens) all
      ∙ rest-is_spent t asked.0 _ same asked.1 (ap (λ p. p.0) (sym all) ∙ done)

  empty-refused :
      (t : String) (s : Session) {r : AuthResponse}
      → (t == "") ≡ true
      → (refresh lib env fault (some t) s).0 ≢ ok r
  unfolding refresh
  empty-refused t s e h = absurd (ground arith)

  -- After a logout that returns, whichever calls fail, a request to refresh that follows with the
  -- token of the logout is refused.
  pub logout_refused :
      (t : String) (s : Session) {r : AuthResponse}
      → (logout lib env fault (some t) (new_request s)).0 ≡ ok tt
      → (refresh lib env fault
          (some t)
          (new_request (logout lib env fault (some t) (new_request s)).1)).0
        ≢ ok r
  logout_refused t s done = elim (Bool-cases (t == "")) [
    | inl e ↦ empty-refused t _ e
    | inr e ↦ is_spent-refused lib env fault t _ (logout-is_spent t (new_request s) refl e done)
  ]
