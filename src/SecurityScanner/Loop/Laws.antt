-- ===== src/SecurityScanner/Loop/Laws.antt =====
-- security_scanner/worker.py: what the whole process sends, and which messages it takes.
use filo_j.Prelude.{
  ℕ, ◌≡◌, ◌≢◌, refl, sym, subst, Bool, true, false, not, List, Result, ok, err, Exec, pure, raise,
  gets, modify, catch, arith, ◌>>=◌, ◌>>◌,
}
use filo_j.Prelude.Rules.{Keeps, Preserves, bind-Preserves, catch-Preserves, if-rule, raise_if-rule}
use filo_j.Shared.Errors.{Exn, exn, runtime_error}
use filo_j.Shared.World.{World, Faults, tick}
use filo_j.Shared.World.Laws.{
  SameRows, SameRows-trans, Extends, Extends-refl, Extends-trans, call-SameRows,
}
use filo_j.Shared.Broker
use filo_j.Shared.Broker.{new_client, get_configured_queue, close}
use filo_j.Shared.Broker.Rows.{connect-SameRows, get_configured_queue-SameRows, close-SameRows}
use filo_j.Shared.Message.{Message}
use filo_j.Shared.Webhook.{is_exception}
use filo_j.Shared.Consumer.{AioPika, AioPikaLaws, consume, consume-Preserves, ensure-Preserves}
use filo_j.SecurityScanner.Frame.{ScanReply}
use filo_j.SecurityScanner.Worker.{Libraries, is_clean, is_connection_error, scan_file}
use filo_j.SecurityScanner.Worker.Contract.{scan_file-NoTask}
use filo_j.SecurityScanner.ClamAv
use filo_j.SecurityScanner.ClamAv.{
  answer, Client, Tenacity, TenacityLaws, ping, connect, scan, scan_once, disconnect,
}
use filo_j.SecurityScanner.ClamAv.Retried.{retry-rule}
use filo_j.SecurityScanner.Loop.{
  Running, on_client, on_world, new_frame, scan_with, take_message, serve, swallow, disconnect_if,
  close_clients, scan_worker,
}

module _ (lib : Libraries) (t : Tenacity) (laws : TenacityLaws t) (aio : AioPika)
    (aio_laws : AioPikaLaws aio) (fault : Faults) (instream : ℕ → Result Exn ScanReply) where
  -- A reply is not clean.
  abbrev Unclean : World → Result Exn ScanReply × Client → Type 0
  Unclean w (ok reply, c) = (is_clean reply ≡ false) × SameRows w c.world
  Unclean w (err e, c) = SameRows w c.world

  module _
      (unclean : (n : ℕ) (reply : ScanReply) → instream n ≡ ok reply → is_clean reply ≡ false) where
    scan_once-Unclean :
        (w : World) (c : Client)
        → SameRows w c.world
        → Unclean w (scan_once t fault instream c)
          × SameRows w (scan_once t fault instream c).1.world
    scan_once-Unclean w c h =
        raise_if-rule (λ r. Unclean w r × SameRows w r.1.world) (not c.connection)
          (exn runtime_error "ClamAV not connected. Call connect() first.")
          (ClamAv.on_world (answer t fault instream)) c (λ _. (h, h))
          (λ _. answered (instream c.world.calls) refl)
      where
        answered :
            (x : Result Exn ScanReply)
            → instream c.world.calls ≡ x
            → Unclean w (x, record c { world = tick c.world }) × SameRows w c.world
        answered (ok reply) e = ((unclean c.world.calls reply e, h), h)
        answered (err x) e = (h, h)

    scan-Unclean :
        (connection : Bool) (w : World)
        → Unclean w (scan t fault instream (record { connection = connection; world = w }))
    unfolding scan
    scan-Unclean connection w =
        retry-rule t laws is_connection_error (scan_once t fault instream) (λ c. SameRows w c.world)
          (Unclean w) (scan_once-Unclean w) 3 (record { connection = connection; world = w })
          (refl, refl, refl)

    scan_with-SameRows :
        (connection : Bool) → Keeps SameRows (scan_with lib t aio fault instream connection)
    scan_with-SameRows connection w =
        rows (scan t fault instream (record { connection = connection; world = w }))
          (scan-Unclean connection w)
      where
        rows : (r : Result Exn ScanReply × Client) → Unclean w r → SameRows w r.1.world
        rows (ok reply, c) h = h.1
        rows (err e, c) h = h

    scan_with-unclean :
        (connection : Bool) (w : World) (reply : ScanReply)
        → (scan_with lib t aio fault instream connection w).0 ≡ ok reply
        → is_clean reply ≡ false
    scan_with-unclean connection w reply e =
        reply_of (scan t fault instream (record { connection = connection; world = w }))
          (scan-Unclean connection w) e
      where
        reply_of :
            (r : Result Exn ScanReply × Client)
            → Unclean w r
            → r.0 ≡ ok reply
            → is_clean reply ≡ false
        reply_of (ok other, c) h e = ground (arith, e, h.0)
        reply_of (err x, c) h e = absurd (cc)

    abbrev Quiet : World → Running → Type 0
    Quiet w s = Extends (λ m. m.exchange ≢ "work.tasks") w.published s.client.world.published

    after_same :
        (w w1 w2 : World)
        → Extends (λ m. m.exchange ≢ "work.tasks") w.published w1.published
        → SameRows w1 w2
        → Extends (λ m. m.exchange ≢ "work.tasks") w.published w2.published
    after_same w w1 w2 h same =
        subst (Extends (λ m. m.exchange ≢ "work.tasks") w.published) (sym same.2) h

    on_world-Quiet :
        {A : Type 0} (w : World) (m : Exec World Exn A)
        → Keeps SameRows m
        → Preserves (Quiet w) (on_world m)
    on_world-Quiet w m same s h =
        after_same w s.client.world (m s.client.world).1 h (same s.client.world)

    connect-Quiet : (w : World) → Preserves (Quiet w) (on_client (connect t fault instream))
    unfolding connect
    connect-Quiet w s h =
        after_same w s.client.world (connect t fault instream s.client).1.world h (
          retry-rule t laws is_exception (ping t fault instream)
            (λ c. SameRows s.client.world c.world) (λ r. SameRows s.client.world r.1.world)
            (λ c same. (pinged c same, pinged c same)) 4 s.client (refl, refl, refl))
      where
        pinged :
            (c : Client)
            → SameRows s.client.world c.world
            → SameRows s.client.world (ping t fault instream c).1.world
        pinged c same =
            SameRows-trans s.client.world c.world (ping t fault instream c).1.world same
              (call-SameRows fault (λ w. w) (λ w. (refl, refl, refl)) c.world)

    disconnect-Quiet : (w : World) → Preserves (Quiet w) (on_client (disconnect t fault instream))
    unfolding disconnect
    disconnect-Quiet w s h =
        after_same w s.client.world (disconnect t fault instream s.client).1.world h (ground arith)

    take_message-Quiet :
        (w : World) (m : Message) → Preserves (Quiet w) (take_message lib t aio fault instream m)
    unfolding take_message
    take_message-Quiet w m s h =
        let c = s.client in
        let r =
          scan_file lib fault (scan_with lib t aio fault instream c.connection) m
            (new_frame c.world) in
        after_same w r.1.world (aio.leave r.1.nacked r.0 r.1.world).1
          (Extends-trans (λ m. m.exchange ≢ "work.tasks") w.published c.world.published
            r.1.world.published h
            (scan_file-NoTask lib fault (scan_with lib t aio fault instream c.connection)
              (scan_with-SameRows c.connection) (scan_with-unclean c.connection) m
              (new_frame c.world)))
          (aio_laws.leave-SameRows r.1.nacked r.0 r.1.world)

    serve-Quiet :
        (w : World) (messages : List Message)
        → Preserves (Quiet w) (serve lib t aio fault instream messages)
    unfolding serve
    serve-Quiet w messages =
        let new_broker : Exec Running Exn (Unit {0}) =
          on_world (modify (λ w. record w { broker = new_client })) in
        let broker = on_world (Broker.connect fault 1) in
        let new_clamav : Exec Running Exn (Unit {0}) =
          modify
            (λ s. record s { client = record s.client { connection = false }; assigned = true }) in
        let clamav = on_client (connect t fault instream) in
        let queue =
          on_world (get_configured_queue fault "work.tasks" "task.*.scan" "scanner-queue") in
        let loop = consume (take_message lib t aio fault instream) messages in
        bind-Preserves (Quiet w) new_broker
          (λ _. broker >> (new_clamav >> (clamav >> (queue >> loop)))) (λ s h. h)
          (λ _.
            bind-Preserves (Quiet w) broker (λ _. new_clamav >> (clamav >> (queue >> loop)))
              (on_world-Quiet w (Broker.connect fault 1) (connect-SameRows fault 1))
              (λ _.
                bind-Preserves (Quiet w) new_clamav (λ _. clamav >> (queue >> loop)) (λ s h. h)
                  (λ _.
                    bind-Preserves (Quiet w) clamav (λ _. queue >> loop) (connect-Quiet w)
                      (λ _.
                        bind-Preserves (Quiet w) queue (λ _. loop)
                          (on_world-Quiet w
                            (get_configured_queue fault "work.tasks" "task.*.scan" "scanner-queue")
                            (get_configured_queue-SameRows fault "work.tasks" "task.*.scan"
                              "scanner-queue"))
                          (λ _.
                            consume-Preserves (take_message lib t aio fault instream) (Quiet w)
                              (take_message-Quiet w) messages)))))

    swallow-Quiet : (w : World) (e : Exn) → Preserves (Quiet w) (swallow lib t aio fault instream e)
    swallow-Quiet w e s h =
        if-rule (λ (m : Exec Running Exn (Unit {0})). Quiet w (m s).1) (is_exception e.class)
          (pure tt) (raise e) (λ _. h) (λ _. h)

    close_clients-Quiet : (w : World) → Preserves (Quiet w) (close_clients lib t aio fault instream)
    unfolding close_clients
    close_clients-Quiet w =
        bind-Preserves (Quiet w) (gets (λ s. s.assigned) >>= disconnect_if lib t aio fault instream)
          (λ _. on_world (close fault)) (λ s. leave s.assigned s)
          (λ _. on_world-Quiet w (close fault) (close-SameRows fault))
      where
        leave :
            (assigned : Bool)
            → Preserves (Quiet w) (disconnect_if lib t aio fault instream assigned)
        leave true = disconnect-Quiet w
        leave false = λ s h. h

    -- If ClamAV never answers that a file is clean, the whole process `scan_worker` sends nothing to
    -- `work.tasks`, whatever messages come and whichever calls fail, and no message that was there is
    -- lost. Tenacity retries as documented, and aio_pika settles a message without a message of its own.
    pub scan_worker-NoTask :
        (messages : List Message) (s : Running)
        → Extends
            (λ m. m.exchange ≢ "work.tasks")
            s.client.world.published
            (scan_worker lib t aio fault instream messages s).1.client.world.published
    unfolding scan_worker
    scan_worker-NoTask messages s =
        let w = s.client.world in
        ensure-Preserves (Quiet w)
          (catch (serve lib t aio fault instream messages) (swallow lib t aio fault instream))
          (close_clients lib t aio fault instream)
          (catch-Preserves (Quiet w) (serve lib t aio fault instream messages)
            (swallow lib t aio fault instream) (serve-Quiet w messages) (swallow-Quiet w))
          (close_clients-Quiet w) s (Extends-refl (λ m. m.exchange ≢ "work.tasks") w.published)
