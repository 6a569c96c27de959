-- ===== src/AuthService/WebhookLaws.antt =====
-- auth_service/services/auth.py: the webhook configuration that is created and found.
use filo_j.Prelude.{
  ℕ, String, ◌≡◌, refl, inl, inr, ap, sym, ◌∙◌, true, false, Option, none, some, List, [], ◌∷◌, map,
  select, ok, ◌>>=◌, arith, nat_eq, Bool-cases, ◌==◌,
}
use filo_j.Shared.World.{Faults}
use filo_j.AuthService.Models.{Developer, Tables}
use filo_j.AuthService.Session.{Session, new_request, one_or_none, query, commit, rollback}
use filo_j.AuthService.Session.Inversion.{query-answered, reraise-passed}
use filo_j.AuthService.Services.{
  configure_row, configure, create_for, get_webhook_config, create_webhook_config,
}

abbrev pub with_id : ℕ → List Developer → List Developer
with_id id rows = select (λ d. nat_eq d.id id) rows

select-configure_row :
    (id : ℕ) (url secret : Option String) (rows : List Developer)
    → with_id id (map (configure_row id url secret) rows)
      ≡ map
          (λ (d : Developer). record d { webhook_url = url; webhook_secret = secret })
          (with_id id rows)
select-configure_row id url secret [] = refl
select-configure_row id url secret (row ∷ rows) = elim (Bool-cases (nat_eq row.id id)) [
  | inl e ↦ ground (arith, select-configure_row id url secret rows)
  | inr e ↦ ground (arith, select-configure_row id url secret rows)
]

found-id : (id : ℕ) (rows : List Developer) (d : Developer) → with_id id rows ≡ d ∷ [] → d.id ≡ id
found-id id [] d h = absurd (cc)
found-id id (row ∷ rows) d h = elim (Bool-cases (nat_eq row.id id)) [
  | inl e ↦ ground arith
  | inr e ↦ ground (arith, found-id id rows d)
]

one_row : (rows : List Developer) (d : Developer) → one_or_none rows ≡ ok (some d) → rows ≡ d ∷ []
one_row [] d h = absurd (cc)
one_row (x ∷ []) d h = cc
one_row (x ∷ y ∷ rest) d h = absurd (cc)

module _ (fault : Faults) where
  -- What a successful creation leaves committed
  created :
      (url secret : String) (found : Option Developer) (s : Session) {p : String × String}
      → (create_for fault url secret found s).0 ≡ ok p
      → (d : Developer) × (found ≡ some d)
        × ((create_for fault url secret found s).1.committed
            ≡ configure d.id (some url) (some secret) s.tables)
  unfolding commit
  created url secret none s h = absurd (cc)
  created url secret (some d) s h = (d, refl, ground arith)

  -- What a lookup finds of such a row, if its query does not fail
  configured_found :
      (id : ℕ) (url secret : String) (d : Developer) (rows : List Developer) (s : Session)
      → (url == "") ≡ false
      → (secret == "") ≡ false
      → d.is_active ≡ true
      → with_id id rows ≡ d ∷ []
      → s.tables.developers ≡ map (configure_row d.id (some url) (some secret)) rows
      → fault s.calls ≡ none
      → (get_webhook_config fault id s).0 ≡ ok (url, secret)
  unfolding get_webhook_config
  configured_found id url secret d rows s hu hs active one same passes =
      let same_id = found-id id rows d one in
      ground (arith, select-configure_row id (some url) (some secret) rows)

  -- A configuration that was created for an active developer, with a URL and a secret that are not
  -- empty, is what a later request finds, if its query does not fail.
  pub create_webhook_config-get_webhook_config :
      (id : ℕ) (url secret : String) (d : Developer) (s : Session) {p : String × String}
      → (url == "") ≡ false
      → (secret == "") ≡ false
      → one_or_none (with_id id s.tables.developers) ≡ ok (some d)
      → d.is_active ≡ true
      → (create_webhook_config fault id url secret s).0 ≡ ok p
      → fault (create_webhook_config fault id url secret s).1.calls ≡ none
      → (get_webhook_config fault id
          (new_request (create_webhook_config fault id url secret s).1)).0
        ≡ ok (url, secret)
  unfolding create_webhook_config configure
  create_webhook_config-get_webhook_config id url secret d s hu hs found active done passes =
      let body =
        (query fault (λ t. t.developers) (λ (x : Developer). nat_eq x.id id)
            >>= create_for fault url secret)
          s in
      let kept = reraise-passed body (rollback fault) s done in
      let asked =
        query-answered fault (λ t. t.developers) (λ (x : Developer). nat_eq x.id id)
          (create_for fault url secret) s (ap (λ q. q.0) (sym kept) ∙ done) in
      let all = kept ∙ asked.2 in
      let made = created url secret asked.0 _ (ap (λ q. q.0) (sym all) ∙ done) in
      let same_row : made.0 ≡ d = cc in
      configured_found id url secret d s.tables.developers _ hu hs active (one_row _ d found)
        (ap (λ q. q.1.committed.developers) all
          ∙ (ap (λ (t : Tables). t.developers) made.2
              ∙ ap
                  (λ (x : Developer).
                    map (configure_row x.id (some url) (some secret)) s.tables.developers)
                  same_row))
        passes
