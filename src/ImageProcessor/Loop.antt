-- ===== src/ImageProcessor/Loop.antt =====
-- image_processor/worker.py: `processor`, the whole process, given the messages that come until the queue
-- is closed.
use filo_j.Prelude.{
  Bool, true, false, Option, none, some, List, Result, ok, err, Exec, pure, raise, gets, modify,
  catch, ensure, if◌then◌else◌, ◌||◌, ◌>>=◌, ◌>>◌,
}
use filo_j.Shared.Errors.{Exn}
use filo_j.Shared.World.{World, Faults}
use filo_j.Shared.Broker.{new_client, connect, get_configured_queue, close}
use filo_j.Shared.Message.{Message}
use filo_j.Shared.Webhook.{is_exception}
use filo_j.Shared.Consumer.{AioPika, consume}
use filo_j.ImageProcessor.Rotation.{Pillow}
use filo_j.ImageProcessor.Worker.{
  Libraries, Verdict, handled, discarded, is_cancelled, process_image,
}

module _ (p : Pillow) (lib : Libraries p) (aio : AioPika) (fault : Faults) where
  -- How `message.process` ends the block of `process_image`
  abbrev pub leave_image : Result Exn Verdict → Exec World Exn (Unit {0})
  leave_image (ok handled) = aio.leave false (ok tt)
  leave_image (ok discarded) = aio.leave true (ok tt)
  leave_image (err e) = aio.leave false (err e)

  unfoldable pub take_message : Message → Exec World Exn (Unit {0})
  take_message message w = let (r, w') = process_image p lib fault message w in leave_image r w'

  unfoldable pub serve : List Message → Exec World Exn (Unit {0})
  serve messages = do
    modify (λ w. record w { broker = new_client })
    connect fault 1
    get_configured_queue fault "work.tasks" "task.image.process" "image_processor"
    consume take_message messages

  -- `except (KeyboardInterrupt, CancelledError)` and `except Exception`
  abbrev pub swallow : Exn → Exec World Exn (Unit {0})
  swallow e = if is_cancelled e.class || is_exception e.class then pure tt else raise e

  abbrev pub close_broker : Option Bool → Exec World Exn (Unit {0})
  close_broker none = pure tt
  close_broker (some closed) = close fault

  unfoldable pub processor : List Message → Exec World Exn (Unit {0})
  processor messages =
      ensure (catch (serve messages) swallow) (gets (λ w. w.broker.connection) >>= close_broker)
