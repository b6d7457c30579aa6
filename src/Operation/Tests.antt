-- ===== src/Operation/Tests.antt =====
-- The theorems on the operation manager at small histories.
use mandau.Base.{
  ◌≢◌, Option, ℕ, ◌≡◌, refl, ◌⊎◌, String, true, false, none, some, List, [], ◌∷◌, map, arith, get,
  put,
}
use mandau.Base.Int.{pos}
use mandau.Operation.{
  stack_apply, running, pending, failed, Operation, Manager, new_manager, create_operation,
  emit_event_locked, send_all, subscribers,
}
use mandau.Operation.Updates.{set_error, update_and_emit}
use mandau.Operation.Listeners.{subscribe, first_event}
use mandau.Operation.Calls.{
  Call, creates, sets_state, sets_error, sets_completed, cancels, subscribes, receives, step, run,
}
use mandau.Operation.Invariant.{Inv, Safe, Inv-operations}
use mandau.Operation.Safety.{run-new_manager, new_manager-Inv}
use mandau.Operation.Delivery.{Report, now_running, says, completes, call_of, events_of}
use mandau.Operation.Subscription.{subscribe-reports}
use mandau.Operation.Records.{has_ended, run-recorded}

abbrev deploy : Operation
deploy = record {
  id = "op-1";
  op_type = stack_apply;
  state = pending;
  created_at = 1;
  completed_at = none;
  error = none;
  progress = pos 0;
  metadata = ("stack", "web") ∷ [];
  has_context = true;
}

abbrev one_operation : Manager
one_operation = record new_manager { operations = ("op-1", deploy) ∷ [] }

one_operation-Inv : Inv one_operation
one_operation-Inv = Inv-operations new_manager (("op-1", deploy) ∷ []) new_manager-Inv

abbrev reports : List Report
reports = now_running 2 ∷ says "Creating/updating services..." 3 ∷ completes 4 ∷ []

abbrev history : List Call
history =
    creates stack_apply [] "op-1" 1
    ∷ subscribes "op-1" 2
    ∷ subscribes "op-1" 3
    ∷ sets_state "op-1" running 4
    ∷ receives 0
    ∷ cancels "op-1" 5
    ∷ sets_completed "op-1" 6
    ∷ []

run-new_manager_example : Safe (run new_manager history)
run-new_manager_example = run-new_manager history

subscribe-reports_example :
    (m1 : Manager) × (m2 : Manager) × (subscribe one_operation "op-1" 2
      ≡ some (m1, one_operation.next))
    × (run m1 (map (call_of "op-1") reports) ≡ some m2)
    × ((m2.channels one_operation.next).buffer
        ≡ first_event "op-1" deploy 2 ∷ events_of "op-1" pending reports)
unfolding get
subscribe-reports_example =
    subscribe-reports one_operation "op-1" deploy 2 reports one_operation-Inv refl (omega arith)

abbrev failed_operation : Operation
failed_operation = record deploy {
  state = failed;
  completed_at = some 2;
  error = some "no such image";
  metadata = [];
}

abbrev with_failed : Manager
with_failed = record new_manager { operations = ("op-1", failed_operation) ∷ [] }

run-recorded_example :
    (◌≡◌ {A = String} "op-1" "op-1")
    × ((has_ended failed ≡ false) ⊎ (◌≢◌ {A = Option ℕ} (some 2) none))
    × ((failed ≢ failed) ⊎ (◌≢◌ {A = Option String} (some "no such image") none))
unfolding run step create_operation set_error update_and_emit emit_event_locked send_all subscribers
    get put new_manager
run-recorded_example =
    run-recorded (creates stack_apply [] "op-1" 1 ∷ sets_error "op-1" (some "no such image") 2 ∷ [])
      with_failed "op-1" failed_operation (tt, (λ e. cc e, tt)) refl refl
