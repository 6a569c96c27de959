-- ===== src/LoggerService/Batches.antt =====
-- logger_service/worker.py: `process_batch` whichever call fails.
use filo_j.Prelude.{
  ℕ, ◌≡◌, refl, ◌∙◌, ◌⊎◌, inl, inr, [], ◌∷◌, ◌++◌, List, Result, ok, err, Exec, gets, modify, ◌>>=◌,
  ◌>>◌,
}
use filo_j.Prelude.Rules.{bind-rule, catch-rule, if-rule, raise_if-rule}
use filo_j.Shared.Errors.{Exn}
use filo_j.Shared.Models.{AuditLog}
use filo_j.Shared.Webhook.{is_exception}
use filo_j.Shared.World.{World, Faults, call}
use filo_j.Shared.World.Laws.{call-rule}
use filo_j.LoggerService.{
  Libraries, LogRun, fresh, on_world, set_stored, commit, ack_all, requeue_all, store_batch,
  on_batch_error, process_batch, is_settled, already_processed,
}

-- The rows that are stored, and those of the batch that are to be
abbrev pub all_rows : LogRun → List AuditLog
all_rows s = s.world.audit_logs ++ fresh s.batch_data

-- Nothing is stored and no message acknowledged, or all rows are stored.
abbrev pub AcksStored : LogRun → LogRun → Type 0
AcksStored s s' =
    ((s'.world.audit_logs ≡ s.world.audit_logs) × (s'.acked ≡ s.acked))
    ⊎ (s'.world.audit_logs ≡ all_rows s)

module _ (lib : Libraries) (fault : Faults) where
  abbrev acked_more : ℕ → LogRun → LogRun
  acked_more tag s = record s { acked = s.acked ++ tag ∷ [] }

  abbrev requeued_more : ℕ → LogRun → LogRun
  requeued_more tag s = record s { requeued = s.requeued ++ tag ∷ [] }

  -- What only acknowledges, or only puts back
  abbrev SameLogs : LogRun → LogRun → Type 0
  SameLogs s s' = s'.world.audit_logs ≡ s.world.audit_logs

  ack_all-SameLogs : (tags : List ℕ) (s : LogRun) → SameLogs s (ack_all lib fault tags s).1
  unfolding ack_all
  ack_all-SameLogs [] s = refl
  ack_all-SameLogs (tag ∷ tags) s =
      raise_if-rule (λ r. SameLogs s r.1) (is_settled tag s) already_processed
        (on_world (call fault (λ w. w)) >> (modify (acked_more tag) >> ack_all lib fault tags)) s
        (λ _. refl)
        (λ _.
          bind-rule (λ r. SameLogs s r.1) (λ r. SameLogs s r.1) (on_world (call fault (λ w. w)) s)
            (λ _. modify (acked_more tag) >> ack_all lib fault tags) s
            (call-rule (λ r. r.1.audit_logs ≡ s.world.audit_logs) fault (λ w. w) s.world (λ _. refl)
              refl)
            (λ _ s1 h. h) (λ _ s1 h. ack_all-SameLogs tags (acked_more tag s1) ∙ h))

  abbrev SameAcks : LogRun → LogRun → Type 0
  SameAcks s s' = (s'.world.audit_logs ≡ s.world.audit_logs) × (s'.acked ≡ s.acked)

  requeue_all-SameAcks : (tags : List ℕ) (s : LogRun) → SameAcks s (requeue_all lib fault tags s).1
  unfolding requeue_all
  requeue_all-SameAcks [] s = (refl, refl)
  requeue_all-SameAcks (tag ∷ tags) s =
      raise_if-rule (λ r. SameAcks s r.1) (is_settled tag s) already_processed
        (on_world (call fault (λ w. w))
          >> (modify (requeued_more tag) >> requeue_all lib fault tags))
        s (λ _. (refl, refl))
        (λ _.
          bind-rule (λ r. SameAcks s r.1) (λ r. SameAcks s r.1) (on_world (call fault (λ w. w)) s)
            (λ _. modify (requeued_more tag) >> requeue_all lib fault tags) s
            (call-rule (λ r. (r.1.audit_logs ≡ s.world.audit_logs) × (s.acked ≡ s.acked)) fault
              (λ w. w) s.world (λ _. (refl, refl)) (refl, refl))
            (λ _ s1 h. h)
            (λ _ s1 h.
              let rest = requeue_all-SameAcks tags (requeued_more tag s1) in
              (rest.0 ∙ h.0, rest.1 ∙ h.1)))

  same-AcksStored : (s s1 s2 : LogRun) → AcksStored s s1 → SameAcks s1 s2 → AcksStored s s2
  same-AcksStored s s1 s2 (inl h) same = inl (same.0 ∙ h.0, same.1 ∙ h.1)
  same-AcksStored s s1 s2 (inr h) same = inr (same.0 ∙ h)

  store_batch-AcksStored : (s : LogRun) → AcksStored s (store_batch lib fault s).1
  unfolding commit
  store_batch-AcksStored s =
      let store = λ (w : World). record w { audit_logs = w.audit_logs ++ fresh s.batch_data } in
      let mark = λ (s : LogRun). record s { batch_data = set_stored s.batch_data } in
      let acks = gets (λ s. s.batch_messages) >>= ack_all lib fault in
      bind-rule (λ r. AcksStored s r.1) (λ r. Committed r.0 r.1) (commit lib fault s) (λ _. acks) s
        (bind-rule (λ r. Committed r.0 r.1) (λ r. Committed r.0 r.1) (on_world (call fault store) s)
          (λ _. modify mark) s
          (call-rule (λ r. Committed r.0 (record s { world = r.1 })) fault store s.world
            (λ _. (refl, refl)) refl)
          (λ _ s1 h. h) (λ _ s1 h. h))
        (λ _ s1 h. inl h) (λ _ s1 h. inr (ack_all-SameLogs s1.batch_messages s1 ∙ h))
    where
      Committed : Result Exn (Unit {0}) → LogRun → Type 0
      Committed (ok _) s1 = s1.world.audit_logs ≡ all_rows s
      Committed (err e) s1 = SameAcks s s1

  -- Whichever calls fail, a batch is stored as a whole or not at all, and a message is acknowledged
  -- only if the batch is stored.
  pub process_batch-AcksStored : (s : LogRun) → AcksStored s (process_batch lib fault s).1
  unfolding process_batch
  process_batch-AcksStored s =
      catch-rule (λ r. AcksStored s r.1) (λ r. AcksStored s r.1) (store_batch lib fault s)
        (on_batch_error lib fault) s (store_batch-AcksStored s)
        (λ e s1 h.
          if-rule (λ (m : Exec LogRun Exn (Unit {0})). AcksStored s (m s1).1) (is_exception e.class)
            _ _
            (λ _.
              same-AcksStored s s1 (requeue_all lib fault s1.batch_messages s1).1 h
                (requeue_all-SameAcks s1.batch_messages s1))
            (λ _. h))
        (λ _ s1 h. h)
