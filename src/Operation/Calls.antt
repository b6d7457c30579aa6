-- ===== src/Operation/Calls.antt =====
-- Histories of calls to the operation manager. The mutex makes a call one step, so the calls of all
-- goroutines, in the order in which they take it, are one list.
use mandau.Base.{ℕ, String, Option, none, some, List, [], ◌∷◌, Map}
use mandau.Base.Int.{ℤ}
use mandau.Operation.{OperationState, OperationType, Manager, create_operation}
use mandau.Operation.Updates.{set_state, set_progress, emit_event, set_error, set_completed, cancel}
use mandau.Operation.Listeners.{subscribe, unsubscribe, receive}

-- The arguments in the order of the methods' own, `uuid` and `now` last.
pub data Call : Type 0 where
  creates : OperationType → Map String → String → ℕ → Call
  sets_state : String → OperationState → ℕ → Call
  sets_progress : String → ℤ → ℕ → Call
  emits : String → String → ℕ → Call
  sets_error : String → Option String → ℕ → Call
  sets_completed : String → ℕ → Call
  cancels : String → ℕ → Call
  subscribes : String → ℕ → Call
  unsubscribes : String → ℕ → Call
  receives : ℕ → Call

abbrev pub manager_of {ℓ} : {A : Type ℓ} → Option (Manager × A) → Option Manager
manager_of none = none
manager_of (some (m, a)) = some m

-- The manager after a call; `none` is a panic.
unfoldable pub step : Manager → Call → Option Manager
step m (creates t metadata uuid now) = some (create_operation m t metadata uuid now).0
step m (sets_state k s now) = set_state m k s now
step m (sets_progress k p now) = set_progress m k p now
step m (emits k message now) = emit_event m k message now
step m (sets_error k e now) = set_error m k e now
step m (sets_completed k now) = set_completed m k now
step m (cancels k now) = manager_of (cancel m k now)
step m (subscribes k now) = manager_of (subscribe m k now)
step m (unsubscribes k ch) = unsubscribe m k ch
step m (receives ch) = some (receive m ch).0

unfoldable pub run : Manager → List Call → Option Manager
run m [] = some m
run m (c ∷ cs) = elim (step m c) [ none ↦ none | some m' ↦ run m' cs ]
