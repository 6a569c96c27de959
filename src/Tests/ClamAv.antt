-- ===== src/Tests/ClamAv.antt =====
-- Scenarios of security_scanner/clamav.py: the connection is dropped once, and then ClamAV answers.
use filo_j.Prelude.{
  ℕ, zero, suc, ◌≡◌, refl, ap, ◌∙◌, Bool, true, false, none, Result, ok, err, Exec, if◌then◌else◌,
  nat_eq,
}
use filo_j.Shared.Errors.{Exn, ExnClass, exn, connection_error}
use filo_j.Shared.World.{Faults}
use filo_j.SecurityScanner.Frame.{ScanReply}
use filo_j.SecurityScanner.ClamAv.{Client, Tenacity, TenacityLaws, scan}
use filo_j.SecurityScanner.ClamAv.Laws.{Decides, scan-Decides}
use filo_j.Tests.Scanner.{clean_reply, scan_world}

module _ {A : Type 0} where
  abbrev retry_or_end :
      (ExnClass → Bool) → Exec Client Exn A → Result Exn A × Client → Result Exn A × Client
  retry_or_end p rest (ok a, c) = (ok a, c)
  retry_or_end p rest (err e, c) = if p e.class then rest c else (err e, c)

  abbrev retry_loop : ℕ → (ExnClass → Bool) → Exec Client Exn A → Exec Client Exn A
  retry_loop zero p m c = m c
  retry_loop (suc zero) p m c = m c
  retry_loop (suc (suc n)) p m c = retry_or_end p (retry_loop (suc n) p m) (m c)

  returned :
      (n : ℕ) (p : ExnClass → Bool) (m : Exec Client Exn A) (c c' : Client) (a : A)
      → m c ≡ (ok a, c')
      → retry_loop (suc n) p m c ≡ (ok a, c')
  returned zero p m c c' a h = h
  returned (suc n) p m c c' a h = ap (retry_or_end p (retry_loop (suc n) p m)) h

  refused :
      (n : ℕ) (p : ExnClass → Bool) (m : Exec Client Exn A) (c c' : Client) (e : Exn)
      → m c ≡ (err e, c')
      → p e.class ≡ false
      → retry_loop (suc n) p m c ≡ (err e, c')
  refused zero p m c c' e h other = h
  refused (suc n) p m c c' e h other =
      ap (retry_or_end p (retry_loop (suc n) p m)) h
      ∙ ap (λ b. if b then retry_loop (suc n) p m c' else (err e, c')) other

  again :
      (n : ℕ) (p : ExnClass → Bool) (m : Exec Client Exn A) (c c' : Client) (e : Exn)
      → m c ≡ (err e, c')
      → p e.class ≡ true
      → retry_loop (suc (suc n)) p m c ≡ retry_loop (suc n) p m c'
  again n p m c c' e h same =
      ap (retry_or_end p (retry_loop (suc n) p m)) h
      ∙ ap (λ b. if b then retry_loop (suc n) p m c' else (err e, c')) same

abbrev pub tenacity : Tenacity
tenacity = record { retry = retry_loop }

pub tenacity_laws : TenacityLaws tenacity
tenacity_laws = record {
  retry_returned = returned;
  retry_refused = refused;
  retry_last = λ p m c c' e h. h;
  retry_again = again;
}

abbrev no_fault : Faults
no_fault n = none

abbrev instream : ℕ → Result Exn ScanReply
instream n = if nat_eq n 0 then err (exn connection_error "reset") else ok clean_reply

abbrev client : Client
client = record { connection = true; world = scan_world }

scan-Decides_example : Decides instream 3 client (scan tenacity no_fault instream client)
scan-Decides_example = scan-Decides tenacity tenacity_laws no_fault instream client refl
