-- ===== src/Operation/Updates.antt =====
-- The methods of pkg/agent/operation/manager.go that write to an operation and tell its listeners.
use mandau.Base.{
  ℕ, String, Bool, true, false, Option, none, some, get, put, if◌then◌else◌, Result, ok, err,
}
use mandau.Base.Int.{ℤ, pos}
use mandau.Operation.{
  OperationState, completed, failed, cancelled, Operation, Event, Manager, emit_event_locked,
  not_found,
}

-- A write through the pointer that the map holds under the key, and then the event.
unfoldable pub update_and_emit : Manager → String → Operation → Event → Option Manager
update_and_emit m op_id op e =
    emit_event_locked (record m { operations = put m.operations op_id op }) e

abbrev pub state_event : String → OperationState → ℕ → Event
state_event op_id s now = record {
  operation_id = op_id;
  state = s;
  timestamp = some now;
  message = "";
  progress = pos 0;
  error = none;
}

unfoldable pub set_state : Manager → String → OperationState → ℕ → Option Manager
set_state m op_id s now = elim (get m.operations op_id) [
  | none ↦ some m
  | some op ↦ update_and_emit m op_id (record op { state = s }) (state_event op_id s now)
]

unfoldable pub set_progress : Manager → String → ℤ → ℕ → Option Manager
set_progress m op_id progress now = elim (get m.operations op_id) [
  | none ↦ some m
  | some op ↦
      update_and_emit m op_id (record op { progress = progress })
        (record (state_event op_id op.state now) { progress = progress })
]

abbrev pub message_event : String → OperationState → String → ℕ → Event
message_event op_id s message now = record (state_event op_id s now) { message = message }

unfoldable pub emit_event : Manager → String → String → ℕ → Option Manager
emit_event m op_id message now = elim (get m.operations op_id) [
  | none ↦ some m
  | some op ↦ emit_event_locked m (message_event op_id op.state message now)
]

abbrev pub error_event : String → Option String → ℕ → Event
error_event op_id e now = record (state_event op_id failed now) { error = e }

unfoldable pub set_error : Manager → String → Option String → ℕ → Option Manager
set_error m op_id e now = elim (get m.operations op_id) [
  | none ↦ some m
  | some op ↦
      update_and_emit m op_id (record op { state = failed; error = e; completed_at = some now })
        (error_event op_id e now)
]

abbrev pub completed_event : String → ℕ → Event
completed_event op_id now = record (state_event op_id completed now) { progress = pos 100 }

unfoldable pub set_completed : Manager → String → ℕ → Option Manager
set_completed m op_id now = elim (get m.operations op_id) [
  | none ↦ some m
  | some op ↦
      update_and_emit m op_id
        (record op { state = completed; progress = pos 100; completed_at = some now })
        (completed_event op_id now)
]

-- The test `op.State == Completed || op.State == Failed`.
abbrev pub is_finished : OperationState → Bool
is_finished completed = true
is_finished failed = true
is_finished _ = false

abbrev pub cancel_event : String → Event
cancel_event op_id = record (state_event op_id cancelled 0) { timestamp = none }

abbrev pub with_result {ℓ} : {A : Type ℓ} → A → Option Manager → Option (Manager × A)
with_result a none = none
with_result a (some m) = some (m, a)

unfoldable pub cancel : Manager → String → ℕ → Option (Manager × Result (Unit {0}))
cancel m op_id now = elim (get m.operations op_id) [
  | none ↦ some (m, not_found op_id)
  | some op ↦
      if is_finished op.state
      then some (m, err "operation already finished")
      else with_result (ok tt) (
          update_and_emit m op_id
            (record op { has_context = false; state = cancelled; completed_at = some now })
            (cancel_event op_id))
]
