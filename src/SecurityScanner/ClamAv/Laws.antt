-- ===== src/SecurityScanner/ClamAv/Laws.antt =====
-- security_scanner/clamav.py: which attempt of `scan` decides.
use filo_j.Prelude.{
  ℕ, zero, suc, ◌≤◌, ◌≡◌, refl, sym, ap, ◌∙◌, subst, ◌⊎◌, inl, inr, Bool, true, false, not, ◌&&◌,
  Result, ok, err, Exec, raise_if, ◌>>◌, Bool-cases, arith,
}
use filo_j.Prelude.Rules.{Keeps}
use filo_j.Shared.Errors.{Exn, exn, runtime_error}
use filo_j.Shared.World.{World, Faults}
use filo_j.Shared.World.Laws.{SameRows}
use filo_j.SecurityScanner.Frame.{ScanReply}
use filo_j.SecurityScanner.Worker.{is_connection_error}
use filo_j.SecurityScanner.Worker.Quiet.{Answers}
use filo_j.SecurityScanner.ClamAv.{
  Client, on_world, Tenacity, TenacityLaws, answer, scan_once, scan,
}

-- Was the connection dropped?
abbrev pub is_dropped : Result Exn ScanReply → Bool
is_dropped (ok reply) = false
is_dropped (err e) = is_connection_error e.class

-- Were the first `i` answers from the `c`-th on dropped connections?
abbrev pub all_dropped : (ℕ → Result Exn ScanReply) → ℕ → ℕ → Bool
all_dropped instream c zero = true
all_dropped instream c (suc i) = is_dropped (instream c) && all_dropped instream (suc c) i

-- The number of the call that is `i` calls after the `c`-th
abbrev pub plus : ℕ → ℕ → ℕ
plus zero c = c
plus (suc i) c = plus i (suc c)

-- After `i` dropped connections, of `n` at most, the next attempt decides; only the number of calls
-- has changed.
abbrev pub Decides :
    (ℕ → Result Exn ScanReply) → ℕ → Client → Result Exn ScanReply × Client → Type 0
Decides instream n c r =
    (i : ℕ) × (i ≤ n)
    × (all_dropped instream c.world.calls i ≡ true)
    × ((i ≡ n) ⊎ (is_dropped (instream (plus i c.world.calls)) ≡ false))
    × (r ≡ (
      instream (plus i c.world.calls),
      record c { world = record c.world { calls = suc (plus i c.world.calls) } },
    ))

-- The client when `i` more calls were made
abbrev later : Client → ℕ → Client
later c i = record c { world = record c.world { calls = suc (plus i c.world.calls) } }

module _ (t : Tenacity) (laws : TenacityLaws t) (fault : Faults)
    (instream : ℕ → Result Exn ScanReply) where
  scan_once-connected :
      (c : Client) (x : Result Exn ScanReply)
      → c.connection ≡ true
      → instream c.world.calls ≡ x
      → scan_once t fault instream c ≡ (x, later c 0)
  scan_once-connected c x connected e = run c.connection connected ∙ ap (λ x. (x, later c 0)) e
    where
      run :
          (b : Bool)
          → b ≡ true
          → (raise_if (not b) (exn runtime_error "ClamAV not connected. Call connect() first.")
                >> on_world (answer t fault instream))
              c
            ≡ (instream c.world.calls, later c 0)
      run true h = refl
      run false h = ground (arith, h)

  -- The first attempt decides.
  first :
      (n : ℕ) (c : Client) (x : Result Exn ScanReply) (r : Result Exn ScanReply × Client)
      → instream c.world.calls ≡ x
      → (zero ≡ n) ⊎ (is_dropped x ≡ false)
      → r ≡ (x, later c 0)
      → Decides instream n c r
  first n c x r e decided same = (
    0,
    omega arith,
    refl,
    subst (λ x. (zero ≡ n) ⊎ (is_dropped x ≡ false)) (sym e) decided,
    same ∙ ap (λ x. (x, later c 0)) (sym e),
  )

  -- The first attempt was dropped, and a later one decides.
  next :
      (n : ℕ) (c : Client) (r r' : Result Exn ScanReply × Client)
      → is_dropped (instream c.world.calls) ≡ true
      → r ≡ r'
      → Decides instream n (later c 0) r'
      → Decides instream (suc n) c r
  next n c r r' dropped same (i, le, all, decided, answer) =
      (suc i, omega (arith, le), ground (arith, dropped, all), at_end decided, same ∙ answer)
    where
      at_end :
          (i ≡ n) ⊎ (is_dropped (instream (plus i (suc c.world.calls))) ≡ false)
          → (suc i ≡ suc n) ⊎ (is_dropped (instream (plus i (suc c.world.calls))) ≡ false)
      at_end (inl e) = inl (ap suc e)
      at_end (inr e) = inr e

  retry-Decides :
      (n : ℕ) (c : Client)
      → c.connection ≡ true
      → Decides instream n c (t.retry (suc n) is_connection_error (scan_once t fault instream) c)
  retry-Decides zero c connected = last (instream c.world.calls) refl
    where
      once : Exec Client Exn ScanReply
      once = scan_once t fault instream

      last :
          (x : Result Exn ScanReply)
          → instream c.world.calls ≡ x
          → Decides instream 0 c (t.retry 1 is_connection_error once c)
      last (ok a) e = first 0 c (ok a) _ e (inl refl) (
          laws.retry_returned 0 is_connection_error once c (later c 0) a
            (scan_once-connected c (ok a) connected e))
      last (err x) e = first 0 c (err x) _ e (inl refl) (
          laws.retry_last is_connection_error once c (later c 0) x
            (scan_once-connected c (err x) connected e))
  retry-Decides (suc n) c connected =
      more (instream c.world.calls) refl (retry-Decides n (later c 0) connected)
    where
      once : Exec Client Exn ScanReply
      once = scan_once t fault instream

      more :
          (x : Result Exn ScanReply)
          → instream c.world.calls ≡ x
          → Decides instream n (later c 0) (t.retry (suc n) is_connection_error once (later c 0))
          → Decides instream (suc n) c (t.retry (suc (suc n)) is_connection_error once c)
      more (ok a) e rest = first (suc n) c (ok a) _ e (inr refl) (
          laws.retry_returned (suc n) is_connection_error once c (later c 0) a
            (scan_once-connected c (ok a) connected e))
      more (err x) e rest = elim (Bool-cases (is_connection_error x.class)) [
        | inl dropped ↦
            next n c _ _ (ap is_dropped e ∙ dropped)
              (laws.retry_again n is_connection_error once c (later c 0) x
                (scan_once-connected c (err x) connected e) dropped)
              rest
        | inr other ↦ first (suc n) c (err x) _ e (inr other) (
            laws.retry_refused (suc n) is_connection_error once c (later c 0) x
              (scan_once-connected c (err x) connected e) other)
      ]

  -- A connected client scans in at most four attempts: each before the deciding one has dropped the
  -- connection, and this one is the fourth or has not dropped it; its answer or exception is what
  -- `scan` gives, and nothing but the number of calls has changed. Tenacity retries as its manual says.
  pub scan-Decides :
      (c : Client) → c.connection ≡ true → Decides instream 3 c (scan t fault instream c)
  unfolding scan
  scan-Decides c connected = retry-Decides 3 c connected

  abbrev pub on_client : Exec World Exn ScanReply
  on_client w =
      let (r, c) = scan t fault instream (record { connection = true; world = w }) in (r, c.world)

  -- What `scan_file` asks of its parameter
  pub scan-SameRows : Keeps SameRows on_client
  scan-SameRows w = rows (scan-Decides (record { connection = true; world = w }) refl)
    where
      rows :
          Decides instream 3
            (record { connection = true; world = w })
            (scan t fault instream (record { connection = true; world = w }))
          → SameRows w (on_client w).1
      rows (i, le, all, decided, e) =
          (ap (λ r. r.1.world.jobs) e, ap (λ r. r.1.world.files) e, ap (λ r. r.1.world.published) e)

  -- A ClamAV that answers each call with this reply is asked once.
  pub on_client-Answers :
      (reply : ScanReply) → ((n : ℕ) → instream n ≡ ok reply) → Answers on_client reply
  on_client-Answers reply always w =
      answer (scan-Decides (record { connection = true; world = w }) refl)
    where
      answer :
          Decides instream 3
            (record { connection = true; world = w })
            (scan t fault instream (record { connection = true; world = w }))
          → (calls : ℕ) × (on_client w ≡ (ok reply, record w { calls = calls }))
      answer (i, le, all, decided, e) = (
        suc (plus i w.calls),
        ap (λ r. (r.0, r.1.world)) e
            ∙ ap (λ x. (x, record w { calls = suc (plus i w.calls) })) (always (plus i w.calls)),
      )
