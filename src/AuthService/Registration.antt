-- ===== src/AuthService/Registration.antt =====
-- auth_service/routes/auth.py: what `register` commits.
use filo_j.Prelude.{
  ◌+◌, ◌*◌, suc, ◌≡◌, refl, ap, ◌∙◌, Bool, true, false, Option, none, some, [], ◌∷◌, ◌++◌, select,
  Result, ok, err, Exec, modify, pure, raise, catch, ◌>>◌, ◌>>=◌, nat_eq, if◌then◌else◌, ◌==◌,
}
use filo_j.Shared.Errors.{Exn, exn, integrity_error}
use filo_j.Shared.World.{Faults}
use filo_j.AuthService.Models.{Developer, RefreshToken, Tables}
use filo_j.AuthService.Session.{
  Session, one_or_none, is_consistent, on_tables, query, flush, commit, rollback,
}
use filo_j.AuthService.Utils.{Libraries, Environment, set_refresh_cookie}
use filo_j.AuthService.Tokens.{
  RegisterRequest, AuthResponse, new_refresh_token, new_developer, try_issue, issue_tokens,
  register_flushed, register_unless, register,
}

abbrev tick : Session → Session
tick s = record s { calls = suc s.calls }

abbrev asked : {A : Type 0} → Option Exn → Result Exn A → Exec Session Exn A
asked x y s = elim x [ some e ↦ (err e, s) | none ↦ (y, s) ]

-- A call that changes nothing, then the rest
asked-then :
    {A B : Type 0} (P : Result Exn B × Session → Type 0) (x : Option Exn) (y : Result Exn A)
    (f : A → Exec Session Exn B) (s : Session)
    → ((e : Exn) → P (err e, s))
    → ((a : A) → P (f a s))
    → P ((asked x y >>= f) s)
asked-then P (some e) y f s failed passed = failed e
asked-then P none (err e) f s failed passed = failed e
asked-then P none (ok a) f s failed passed = passed a

-- What a commit does, whether it fails or not
abbrev Commits : Session → Result Exn (Unit {0}) × Session → Type 0
Commits s (ok _, s') = s'.committed ≡ s.tables
Commits s (err e, s') = s'.committed ≡ s.committed

commits :
    (x : Option Exn) (consistent : Bool) (e : Exn) (s : Session)
    → Commits s (elim x as (λ _. Result Exn (Unit {0}) × Session) [
      | some e ↦ (err e, tick s)
      | none ↦
          if consistent then (ok tt, record (tick s) { committed = s.tables }) else (err e, tick s)
    ])
commits (some e') consistent e s = refl
commits none true e s = refl
commits none false e s = refl

commit-Commits : (fault : Faults) (s : Session) → Commits s (commit fault s)
unfolding commit
commit-Commits fault s =
    commits (fault s.calls) (is_consistent s.tables) (exn integrity_error "unique violation") s

-- The result of a flush
abbrev flush_result : Tables → Result Exn (Unit {0})
flush_result t = if is_consistent t then ok tt else err (exn integrity_error "unique violation")

-- How a registration ends: with the developer and a token of the developer committed, or with what
-- was committed before.
abbrev pub Registers :
    Libraries → Environment → RegisterRequest → Session → Result Exn AuthResponse × Session → Type 0
Registers lib env body s (ok r, s') =
    (d : Developer) × (k : RefreshToken) × (d.email ≡ body.email)
    × (d.plan ≡ "free")
    × (k.developer_id ≡ d.id)
    × (k.is_revoked ≡ false)
    × (k.expires_at ≡ lib.now (suc (suc (suc s.calls))) + 86400 * env.refresh_expiry_days)
    × (s'.cookie ≡ some (some k.token))
    × (r.developer_id ≡ lib.show_uuid d.id)
    × (s'.committed.developers ≡ s.tables.developers ++ d ∷ [])
    × (s'.committed.refresh_tokens ≡ s.tables.refresh_tokens ++ k ∷ [])
Registers lib env body s (err e, s') = s'.committed ≡ s.committed

module _ (lib : Libraries) (env : Environment) (fault : Faults) where
  -- A rollback raises again, and leaves what is committed.
  rolled_back-Registers :
      (body : RegisterRequest) (s0 s : Session) (x : Option Exn) (e : Exn)
      → s.committed ≡ s0.committed
      → Registers lib env body s0 (
          ((λ (_ : Session). elim x as (λ _. Result Exn (Unit {0}) × Session) [
            | some e ↦ (err e, tick s)
            | none ↦ (ok tt, record (tick s) { tables = s.committed })
          ])
              >> raise e)
            s)
  rolled_back-Registers body s0 s (some e') e same = same
  rolled_back-Registers body s0 s none e same = same

  -- What follows the commit of the first token
  committed-Registers :
      (body : RegisterRequest) (s0 s1 : Session) (d : Developer) (k : RefreshToken)
      (answer : AuthResponse) (r : Result Exn (Unit {0}) × Session)
      → Commits s1 r
      → s1.committed ≡ s0.committed
      → d.email ≡ body.email
      → d.plan ≡ "free"
      → k.developer_id ≡ d.id
      → k.is_revoked ≡ false
      → k.expires_at ≡ lib.now (suc (suc (suc s0.calls))) + 86400 * env.refresh_expiry_days
      → answer.developer_id ≡ lib.show_uuid d.id
      → s1.tables.developers ≡ s0.tables.developers ++ d ∷ []
      → s1.tables.refresh_tokens ≡ s0.tables.refresh_tokens ++ k ∷ []
      → Registers lib env body s0 (
          catch
            (λ _.
              ((λ (_ : Session). r) >> (modify (set_refresh_cookie lib env k.token) >> pure answer))
                s1)
            (λ e. rollback fault >> raise e)
            s1)
  unfolding rollback set_refresh_cookie
  committed-Registers body s0 s1 d k answer (ok _, s2) c same email plan owner valid until named
        added tokens =
      (
        d,
        k,
        email,
        plan,
        owner,
        valid,
        until,
        refl,
        named,
        ap (λ (t : Tables). t.developers) c ∙ added,
        ap (λ (t : Tables). t.refresh_tokens) c ∙ tokens,
      )
  committed-Registers body s0 s1 d k answer (err e, s2) c same email plan owner valid until named
        added tokens =
      rolled_back-Registers body s0 s2 (fault s2.calls) e (c ∙ same)

  issue_tokens-Registers :
      (body : RegisterRequest) (s0 s : Session) (d : Developer)
      → s.calls ≡ suc (suc (suc s0.calls))
      → s.committed ≡ s0.committed
      → d.email ≡ body.email
      → d.plan ≡ "free"
      → s.tables.developers ≡ s0.tables.developers ++ d ∷ []
      → s.tables.refresh_tokens ≡ s0.tables.refresh_tokens
      → Registers lib env body s0 (issue_tokens lib env fault d s)
  unfolding issue_tokens try_issue
  issue_tokens-Registers body s0 s d counted same email plan added tokens =
      let k = new_refresh_token lib env fault d s in
      let s1 = on_tables (λ t. record t { refresh_tokens = t.refresh_tokens ++ k ∷ [] }) s in
      committed-Registers body s0 s1 d k _ (commit fault s1) (commit-Commits fault s1) same email
        plan refl refl (ap (λ n. lib.now n + 86400 * env.refresh_expiry_days) counted) refl added
        (ap (λ rows. rows ++ k ∷ []) tokens)

  flushed-Registers :
      (body : RegisterRequest) (s0 s : Session) (d : Developer)
      → s.calls ≡ suc s0.calls
      → s.committed ≡ s0.committed
      → d.email ≡ body.email
      → d.plan ≡ "free"
      → s.tables.developers ≡ s0.tables.developers ++ d ∷ []
      → s.tables.refresh_tokens ≡ s0.tables.refresh_tokens
      → Registers lib env body s0 (register_flushed lib env fault d s)
  unfolding flush
  flushed-Registers body s0 s d counted same email plan added tokens =
      let s1 = tick s in
      let rest : Exec Session Exn AuthResponse =
        query fault (λ t. t.developers) (λ x. nat_eq x.id d.id) >>= λ _.
        issue_tokens lib env fault d in
      asked-then {B = AuthResponse} (Registers lib env body s0) (fault s.calls)
        (flush_result s.tables) (λ _. rest) s1 (λ e. same)
        (λ _.
          asked-then {B = AuthResponse} (Registers lib env body s0) (fault s1.calls)
            (one_or_none (select (λ (x : Developer). nat_eq x.id d.id) s.tables.developers))
            (λ _. issue_tokens lib env fault d) (tick s1) (λ e. same)
            (λ _.
              issue_tokens-Registers body s0 (tick s1) d (ap (λ n. suc (suc n)) counted) same email
                plan added tokens))

  found-Registers :
      (body : RegisterRequest) (found : Option Developer) (s0 s : Session)
      → s.calls ≡ suc s0.calls
      → s.committed ≡ s0.committed
      → s.tables ≡ s0.tables
      → Registers lib env body s0 (register_unless lib env fault body found s)
  found-Registers body (some d) s0 s counted same tables = same
  found-Registers body none s0 s counted same tables =
      flushed-Registers body s0 _ (new_developer lib env fault body s) counted same refl refl
        (ap (λ (t : Tables). t.developers ++ new_developer lib env fault body s ∷ []) tables)
        (ap (λ (t : Tables). t.refresh_tokens) tables)

  -- Whichever call fails, a registration has committed the developer with the requested address and
  -- the plan `free` together with one refresh token of the developer, and then it answers; or it
  -- raises and has committed nothing. The token is not revoked, it expires `refresh_expiry_days` days after
  -- it was made, it is what the cookie is set to, and the answer names the developer.
  pub register-Registers :
      (body : RegisterRequest) (s : Session)
      → Registers lib env body s (register lib env fault body s)
  unfolding register
  register-Registers body s =
      asked-then {B = AuthResponse} (Registers lib env body s) (fault s.calls)
        (one_or_none (select (λ (x : Developer). x.email == body.email) s.tables.developers))
        (register_unless lib env fault body) (tick s) (λ e. refl)
        (λ found. found-Registers body found s (tick s) refl refl refl)
