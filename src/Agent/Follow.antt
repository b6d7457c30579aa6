-- ===== src/Agent/Follow.antt =====
-- The loop of `ApplyStack` and `RemoveStack` in cmd/mandau-agent/main.go that follows an operation,
-- and the conversions of its states.
use mandau.Base.{
  ℕ, zero, suc, String, Bool, true, false, Option, none, some, List, [], ◌∷◌, Result, ok, err,
}
use mandau.Base.Int.{ℤ}
use mandau.Operation.{OperationState, pending, running, completed, failed, cancelled, Event}
use mandau.Operation.Updates.{is_finished}

pub data ProtoState : Type 0 where
  operation_state_pending operation_state_running operation_state_completed : ProtoState
  operation_state_failed operation_state_cancelled : ProtoState

abbrev convert_operation_state : OperationState → ProtoState
convert_operation_state running = operation_state_running
convert_operation_state completed = operation_state_completed
convert_operation_state failed = operation_state_failed
convert_operation_state cancelled = operation_state_cancelled
convert_operation_state pending = operation_state_pending

pub record OperationEvent : Type 0 where
  pub operation_id : String
  pub state : ProtoState
  pub message : String
  pub progress : ℤ
  pub error : String

abbrev error_text : Option String → String
error_text none = ""
error_text (some e) = e

abbrev pub response : Event → OperationEvent
response e = record {
  operation_id = e.operation_id;
  state = convert_operation_state e.state;
  message = e.message;
  progress = e.progress;
  error = error_text e.error;
}

-- What comes when the events so far are read: the channel is closed, the caller's context is done,
-- or nothing yet.
pub data Then : Type 0 where
  channel_closed : Then
  context_done : String → Then
  nothing_yet : Then

-- The responses sent, and what the loop returns; `none` while it waits.
abbrev pub Followed : Type 0
Followed = List OperationEvent × Option (Result (Unit {0}))

-- After an event is sent: the loop ends if the operation completed or failed.
abbrev pub sent_on : Event → Followed → Bool → Followed
sent_on e rest true = (response e ∷ [], some (ok tt))
sent_on e rest false = (response e ∷ rest.0, rest.1)

unfoldable pub follow : List Event → Then → ℕ → String → Followed
follow [] channel_closed room failure = ([], some (ok tt))
follow [] (context_done e) room failure = ([], some (err e))
follow [] nothing_yet room failure = ([], none)
follow (e ∷ es) after zero failure = ([], some (err failure))
follow (e ∷ es) after (suc room) failure =
    sent_on e (follow es after room failure) (is_finished e.state)
