-- ===== src/SecurityScanner/ClamAv.antt =====
-- security_scanner/clamav.py: `ClamAVClient`. The decorator `retry` of tenacity and what clamd answers
-- are parameters; the waits between two attempts change nothing that the model has.
pub mod Laws
pub mod Retried
use filo_j.Prelude.{
  ℕ, suc, Bool, true, false, not, Option, none, some, Result, ok, err, Exec, pure, raise, raise_if,
  gets, modify, catch, ◌≡◌, if◌then◌else◌, ◌>>=◌, ◌>>◌,
}
use filo_j.Shared.Errors.{Exn, ExnClass, exn, runtime_error}
use filo_j.Shared.World.{World, Faults, tick, call}
use filo_j.Shared.Webhook.{is_exception}
use filo_j.SecurityScanner.Frame.{ScanReply}
use filo_j.SecurityScanner.Worker.{is_connection_error}

-- The client's field `connection`, set or not, beside the world
pub record Client : Type 0 where
  pub connection : Bool
  pub world : World

abbrev pub on_world : {A : Type 0} → Exec World Exn A → Exec Client Exn A
on_world m c = let (a, w) = m c.world in (a, record c { world = w })

-- `retry(stop=stop_after_attempt(n), retry=retry_if_exception_type(…), reraise=True)`
pub record Tenacity : Type 1 where
  pub retry : {A : Type 0} → ℕ → (ExnClass → Bool) → Exec Client Exn A → Exec Client Exn A

-- What the manual of tenacity says of it: what returns or raises another exception has ended, and so
-- has the last attempt; otherwise there is one attempt less.
pub record TenacityLaws (t : Tenacity) : Type 1 where
  pub retry_returned :
      {A : Type 0} (n : ℕ) (p : ExnClass → Bool) (m : Exec Client Exn A) (c c' : Client) (a : A)
      → m c ≡ (ok a, c')
      → t.retry (suc n) p m c ≡ (ok a, c')
  pub retry_refused :
      {A : Type 0} (n : ℕ) (p : ExnClass → Bool) (m : Exec Client Exn A) (c c' : Client) (e : Exn)
      → m c ≡ (err e, c')
      → p e.class ≡ false
      → t.retry (suc n) p m c ≡ (err e, c')
  pub retry_last :
      {A : Type 0} (p : ExnClass → Bool) (m : Exec Client Exn A) (c c' : Client) (e : Exn)
      → m c ≡ (err e, c')
      → t.retry 1 p m c ≡ (err e, c')
  pub retry_again :
      {A : Type 0} (n : ℕ) (p : ExnClass → Bool) (m : Exec Client Exn A) (c c' : Client) (e : Exn)
      → m c ≡ (err e, c')
      → p e.class ≡ true
      → t.retry (suc (suc n)) p m c ≡ t.retry (suc n) p m c'

-- `instream` is what the n-th call answers, a scan.
module _ (t : Tenacity) (fault : Faults) (instream : ℕ → Result Exn ScanReply) where
  abbrev pub ping : Exec Client Exn (Unit {0})
  ping = do modify (λ c. record c { connection = true }); on_world (call fault (λ w. w))

  unfoldable pub connect : Exec Client Exn (Unit {0})
  connect = t.retry 5 is_exception ping

  abbrev pub answer : Exec World Exn ScanReply
  answer w = (instream w.calls, tick w)

  abbrev pub scan_once : Exec Client Exn ScanReply
  scan_once = do
    connected ← gets (λ c. c.connection)
    raise_if (not connected) (exn runtime_error "ClamAV not connected. Call connect() first.")
    on_world answer

  unfoldable pub scan : Exec Client Exn ScanReply
  scan = t.retry 4 is_connection_error scan_once

  abbrev close_socket : Bool → Exec Client Exn (Unit {0})
  close_socket true = on_world (call fault (λ w. w))
  close_socket false = pure tt

  unfoldable pub disconnect : Exec Client Exn (Unit {0})
  disconnect =
      catch (gets (λ c. c.connection) >>= close_socket)
        (λ e. if is_exception e.class then pure tt else raise e)
