-- ===== src/LoggerService/Settling.antt =====
-- logger_service/worker.py: `process_batch` when no call fails, and how often a message is settled.
use filo_j.Prelude.{
  ℕ, ◌≡◌, refl, ap, sym, ◌∙◌, Bool, true, false, not, ◌&&◌, ◌||◌, List, [], ◌∷◌, ◌++◌, append_assoc,
  append-nil, ok, subst, ◌⊎◌, err, arith, nat_eq, Bool-cases, inl, inr, Result,
}
use filo_j.Prelude.Rules.{catch-rule}
use filo_j.Shared.Errors.{Exn}
use filo_j.Shared.World.{quiet, tick}
use filo_j.LoggerService.{
  Libraries, LogRun, has_tag, is_settled, already_processed, set_stored, commit, ack_all,
  requeue_all, process_batch, on_batch_error,
}
use filo_j.LoggerService.Batches.{all_rows}

has_tag-append :
    (tag t : ℕ) (ts : List ℕ) → has_tag tag (ts ++ t ∷ []) ≡ (has_tag tag ts || nat_eq t tag)
has_tag-append tag t [] = ground arith
has_tag-append tag t (x ∷ xs) = ground (arith, has_tag-append tag t xs)

abbrev settle : ℕ → LogRun → LogRun
settle tag s = record s { world = tick s.world; acked = s.acked ++ tag ∷ [] }

-- Is no message of the list settled, and none in it twice?
abbrev pub each_once : List ℕ → LogRun → Bool
each_once [] s = true
each_once (tag ∷ tags) s = not (is_settled tag s) && each_once tags (settle tag s)

settle-is_settled :
    (t tag : ℕ) (s : LogRun) → is_settled t s ≡ true → is_settled t (settle tag s) ≡ true
settle-is_settled t tag s h = ground (arith, has_tag-append t tag s.acked, h)

settle-is_settled_same : (tag : ℕ) (s : LogRun) → is_settled tag (settle tag s) ≡ true
settle-is_settled_same tag s = ground (arith, has_tag-append tag tag s.acked)

-- Does it raise, with the message `t` settled?
abbrev Repeats : ℕ → LogRun → Result Exn (Unit {0}) × LogRun → Type 0
Repeats t s r =
    (r.0 ≡ err already_processed)
    × (is_settled t r.1 ≡ true)
    × (r.1.world.audit_logs ≡ s.world.audit_logs)
    × (r.1.requeued ≡ s.requeued)
    × (r.1.batch_messages ≡ s.batch_messages)

module _ (lib : Libraries) where
  ack_all-new :
      (tag : ℕ) (tags : List ℕ) (s : LogRun)
      → is_settled tag s ≡ false
      → ack_all lib quiet (tag ∷ tags) s ≡ ack_all lib quiet tags (settle tag s)
  unfolding ack_all
  ack_all-new tag tags s e = ground (arith, e)

  ack_all-old :
      (tag : ℕ) (tags : List ℕ) (s : LogRun)
      → is_settled tag s ≡ true
      → ack_all lib quiet (tag ∷ tags) s ≡ (err already_processed, s)
  unfolding ack_all
  ack_all-old tag tags s e = ground (arith, e)

  requeue_all-old :
      (tag : ℕ) (tags : List ℕ) (s : LogRun)
      → is_settled tag s ≡ true
      → requeue_all lib quiet (tag ∷ tags) s ≡ (err already_processed, s)
  unfolding requeue_all
  requeue_all-old tag tags s e = ground (arith, e)

  -- All are acknowledged.
  abbrev Acks : List ℕ → LogRun → Result Exn (Unit {0}) × LogRun → Type 0
  Acks tags s r =
      (r.0 ≡ ok tt)
      × (r.1.acked ≡ s.acked ++ tags)
      × (r.1.world.audit_logs ≡ s.world.audit_logs)
      × (r.1.requeued ≡ s.requeued)

  ack_all-once :
      (tags : List ℕ) (s : LogRun)
      → each_once tags s ≡ true
      → Acks tags s (ack_all lib quiet tags s)
  unfolding ack_all
  ack_all-once [] s h = (refl, sym (append-nil s.acked), refl, refl)
  ack_all-once (tag ∷ tags) s h = elim (Bool-cases (is_settled tag s)) [
    | inl e ↦ ground (arith, h, e)
    | inr e ↦
        let rest = ack_all-once tags (settle tag s) (ground (arith, h, e)) in
        subst (Acks (tag ∷ tags) s) (sym (ack_all-new tag tags s e))
          (rest.0, rest.1 ∙ append_assoc s.acked (tag ∷ []) tags, rest.2, rest.3)
  ]

  ack_all-settled :
      (t : ℕ) (tags : List ℕ) (s : LogRun)
      → is_settled t s ≡ true
      → each_once tags s ≡ false
      → Repeats t s (ack_all lib quiet tags s)
  ack_all-settled t [] s settled h = ground arith
  ack_all-settled t (tag ∷ tags) s settled h = elim (Bool-cases (is_settled tag s)) [
    | inl e ↦ subst (Repeats t s) (sym (ack_all-old tag tags s e)) (refl, settled, refl, refl, refl)
    | inr e ↦ subst (Repeats t s) (sym (ack_all-new tag tags s e)) (
        ack_all-settled t tags (settle tag s) (settle-is_settled t tag s settled)
          (ground (arith, h, e)))
  ]

  ack_all-repeated :
      (tag : ℕ) (tags : List ℕ) (s : LogRun)
      → each_once (tag ∷ tags) s ≡ false
      → Repeats tag s (ack_all lib quiet (tag ∷ tags) s)
  ack_all-repeated tag tags s h = elim (Bool-cases (is_settled tag s)) [
    | inl e ↦ subst (Repeats tag s) (sym (ack_all-old tag tags s e)) (refl, e, refl, refl, refl)
    | inr e ↦ subst (Repeats tag s) (sym (ack_all-new tag tags s e)) (
        ack_all-settled tag tags (settle tag s) (settle-is_settled_same tag s)
          (ground (arith, h, e)))
  ]

  -- The batch with its rows in the table
  abbrev stored : LogRun → LogRun
  stored s = record s {
    world = record (tick s.world) { audit_logs = all_rows s };
    batch_data = set_stored s.batch_data;
  }

  -- How a batch ends
  abbrev pub Settles : LogRun → Result Exn (Unit {0}) × LogRun → Type 0
  Settles s r =
      (r.1.world.audit_logs ≡ all_rows s)
      × (r.1.requeued ≡ s.requeued)
      × (((each_once s.batch_messages s ≡ true)
            × (r.0 ≡ ok tt)
            × (r.1.acked ≡ s.acked ++ s.batch_messages))
          ⊎ ((each_once s.batch_messages s ≡ false) × (r.0 ≡ err already_processed)))

  each_once-world :
      (tags : List ℕ) (s s' : LogRun)
      → s'.acked ≡ s.acked
      → s'.requeued ≡ s.requeued
      → s'.discarded ≡ s.discarded
      → each_once tags s' ≡ each_once tags s
  each_once-world [] s s' a r d = refl
  each_once-world (tag ∷ tags) s s' a r d =
      let rest =
        each_once-world tags (settle tag s) (settle tag s') (ap (λ l. l ++ tag ∷ []) a) r d in
      ground (arith, a, r, d, rest)

  -- If no call fails, a batch is stored, and no message put back: if no message is in the batch twice
  -- and none of them is settled already, all are acknowledged and `process_batch` returns; if not, it
  -- raises, for aio_pika does not settle a message again, neither by `ack` nor, in the `except`
  -- clause, by `nack`.
  pub process_batch-Settles : (s : LogRun) → Settles s (process_batch lib quiet s)
  unfolding process_batch commit
  process_batch-Settles s =
      catch-rule (Settles s) Acked (ack_all lib quiet s.batch_messages (stored s))
        (on_batch_error lib quiet) s (acks s.batch_messages refl) failed passed
    where
      Acked : Result Exn (Unit {0}) × LogRun → Type 0
      Acked r =
          ((each_once s.batch_messages (stored s) ≡ true) × Acks s.batch_messages (stored s) r)
          ⊎ ((each_once s.batch_messages (stored s) ≡ false)
              × (tag : ℕ) × (tags : List ℕ) × (s.batch_messages ≡ tag ∷ tags)
              × Repeats tag (stored s) r)

      acks :
          (tags : List ℕ)
          → s.batch_messages ≡ tags
          → Acked (ack_all lib quiet s.batch_messages (stored s))
      acks [] e =
          inl (ground (arith, e), ack_all-once s.batch_messages (stored s) (ground (arith, e)))
      acks (tag ∷ tags) e = elim (Bool-cases (each_once s.batch_messages (stored s))) [
        | inl once ↦ inl (once, ack_all-once s.batch_messages (stored s) once)
        | inr twice ↦ inr (
          twice,
          tag,
          tags,
          e,
          subst (λ l. Repeats tag (stored s) (ack_all lib quiet l (stored s))) (sym e)
              (ack_all-repeated tag tags (stored s)
                (subst (λ l. each_once l (stored s) ≡ false) e twice)),
        )
      ]

      same_once : each_once s.batch_messages (stored s) ≡ each_once s.batch_messages s
      same_once = each_once-world s.batch_messages s (stored s) refl refl refl

      raised_same :
          (x : Exn)
          → ◌≡◌ {A = Result Exn (Unit {0})} (err x) (err already_processed)
          → already_processed ≡ x
      raised_same x h = ground (arith, h)

      passed : (a : Unit {0}) (s1 : LogRun) → Acked (ok a, s1) → Settles s (ok a, s1)
      passed a s1 (inl (once, h)) = (h.2, h.3, inl (sym same_once ∙ once, h.0, h.1))
      passed a s1 (inr (twice, tag, tags, e, h)) = ground (arith, h.0)

      failed :
          (e : Exn) (s1 : LogRun) → Acked (err e, s1) → Settles s (on_batch_error lib quiet e s1)
      failed x s1 (inl (once, h)) = ground (arith, h.0)
      failed x s1 (inr (twice, tag, tags, e, h)) =
          subst (λ (y : Exn). Settles s (on_batch_error lib quiet y s1)) (raised_same x h.0)
            (subst (Settles s)
              (sym
                (ap (λ l. requeue_all lib quiet l s1) (h.4 ∙ e) ∙ requeue_all-old tag tags s1 h.1))
              (h.2, h.3, inr (sym same_once ∙ twice, refl)))
