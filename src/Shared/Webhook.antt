-- ===== src/Shared/Webhook.antt =====
-- shared/webhook.py: `dispatch_to_webhook`.
pub mod Laws
use filo_j.Prelude.{
  String, Bool, true, false, none, [], ◌∷◌, Exec, raise, raise_if, catch, ◌>>=◌, ◌>>◌,
  if◌then◌else◌, ◌==◌,
}
use filo_j.Shared.Errors.{Exn, ExnClass, exn, value_error, type_error, webhook_dispatch_error}
use filo_j.Shared.Values.{Json, text}
use filo_j.Shared.World.{World, Faults}
use filo_j.Shared.Broker.{publish}

-- The class and its subclasses `UnicodeDecodeError` and `JSONDecodeError`.
abbrev is_value_or_type_error : ExnClass → Bool
is_value_or_type_error ExnClass.value_error = true
is_value_or_type_error ExnClass.type_error = true
is_value_or_type_error ExnClass.unicode_decode_error = true
is_value_or_type_error ExnClass.json_decode_error = true
is_value_or_type_error _ = false

-- `KeyboardInterrupt`, `SystemExit` and `CancelledError` are no `Exception`.
abbrev pub is_exception : ExnClass → Bool
is_exception ExnClass.keyboard_interrupt = false
is_exception ExnClass.system_exit = false
is_exception ExnClass.cancelled_error = false
is_exception _ = true

-- The developer's id is typed as a text, and any value goes through. `str.strip` is a parameter: the code only asks whether its result is empty.
module _ (strip : String → String) (fault : Faults) where
  unfoldable pub translate : Exn → Exec World Exn (Unit {0})
  translate e =
      if is_value_or_type_error e.class
      then raise (exn webhook_dispatch_error "Failed to prepare webhook payload")
      else if is_exception e.class
      then raise (exn webhook_dispatch_error "Failed to publish webhook event")
      else raise e

  unfoldable pub dispatch_to_webhook :
      String → String → String → Json → Json → Exec World Exn (Unit {0})
  dispatch_to_webhook event file_id status result developer_id = do
    raise_if (strip event == "") (exn value_error "event is required")
    raise_if (strip status == "") (exn value_error "status is required")
    let payload =
        ("event", text event)
        ∷ ("file_id", text file_id)
        ∷ ("status", text status)
        ∷ ("result", result)
        ∷ ("developer_id", developer_id)
        ∷ []
    catch (publish fault "webhook.retry" event payload none) translate
