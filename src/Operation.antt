-- ===== src/Operation.antt =====
-- pkg/agent/operation/manager.go. Every method takes the manager's mutex for its whole body, so a
-- method is one step from a manager to the next. What the runtime supplies is an argument: `now`
-- for `time.Now()`, and the fresh text of `uuid.New()`. A channel is a number, its identity; the
-- channels' contents are a function of it. `none` is a panic of the Go runtime.
pub mod Updates
pub mod Listeners
pub mod Calls
pub mod Registered
pub mod Invariant
pub mod Safety
pub mod Delivery
pub mod Subscription
pub mod Lifecycle
pub mod Records
mod Tests
use mandau.Base.{
  ℕ, suc, ◌+◌, String, Bool, true, false, Option, none, some, List, [], ◌∷◌, ◌++◌, ◌||◌, length,
  Map, get, put, ltb, eqb, if◌then◌else◌, Result, ok, err, ◌<>◌,
}
use mandau.Base.Int.{ℤ, pos}

pub data OperationType : Type 0 where
  stack_apply stack_remove image_pull exec backup : OperationType

pub data OperationState : Type 0 where
  pending running completed failed cancelled : OperationState

-- `has_context` holds until `cancelFunc` is called.
pub record Operation : Type 0 where
  pub id : String
  pub op_type : OperationType
  pub state : OperationState
  pub created_at : ℕ
  pub completed_at : Option ℕ
  pub error : Option String
  pub progress : ℤ
  pub metadata : Map String
  pub has_context : Bool

-- The zero `time.Time` of an event with no timestamp is `none`.
pub record Event : Type 0 where
  pub operation_id : String
  pub state : OperationState
  pub timestamp : Option ℕ
  pub message : String
  pub progress : ℤ
  pub error : Option String

pub record Channel : Type 0 where
  pub buffer : List Event
  pub is_closed : Bool

-- `next` is the first number that no channel has yet.
pub record Manager : Type 0 where
  pub operations : Map Operation
  pub listeners : Map (List ℕ)
  pub channels : ℕ → Channel
  pub next : ℕ

-- The buffer size that `Subscribe` gives to `make(chan Event, 10)`.
abbrev pub capacity : ℕ
capacity = 10

abbrev pub new_channel : Channel
new_channel = record { buffer = []; is_closed = false }

unfoldable pub new_manager : Manager
new_manager = record { operations = []; listeners = []; channels = λ i. new_channel; next = 0 }

abbrev pub set_channel : (ℕ → Channel) → ℕ → Channel → ℕ → Channel
set_channel h i c j = if eqb j i then c else h j

-- The buffer after `select { case ch <- event: default: }` on an open channel.
abbrev pub offer : List Event → Event → List Event
offer es e = if ltb (length es) capacity then es ++ e ∷ [] else es

-- A send on a closed channel panics, under `select` too.
unfoldable pub try_send : (ℕ → Channel) → ℕ → Event → Option (ℕ → Channel)
try_send h i e =
    if (h i).is_closed
    then none
    else some (set_channel h i (record (h i) { buffer = offer (h i).buffer e }))

unfoldable pub send_all : (ℕ → Channel) → List ℕ → Event → Option (ℕ → Channel)
send_all h [] e = some h
send_all h (i ∷ is) e = elim (try_send h i e) [ none ↦ none | some h' ↦ send_all h' is e ]

-- The listeners of an operation; none for a missing key.
abbrev pub or_empty : Option (List ℕ) → List ℕ
or_empty none = []
or_empty (some is) = is

unfoldable pub subscribers : Manager → String → List ℕ
subscribers m k = or_empty (get m.listeners k)

unfoldable pub emit_event_locked : Manager → Event → Option Manager
emit_event_locked m e = elim (send_all m.channels (subscribers m e.operation_id) e) [
  | none ↦ none
  | some h ↦ some (record m { channels = h })
]

unfoldable pub create_operation :
    Manager → OperationType → Map String → String → ℕ → Manager × String
create_operation m t metadata uuid now = (record m { operations = put m.operations uuid op }, uuid)
  where
    op : Operation
    op = record {
      id = uuid;
      op_type = t;
      state = pending;
      created_at = now;
      completed_at = none;
      error = none;
      progress = pos 0;
      metadata = metadata;
      has_context = true;
    }

abbrev pub not_found {ℓ} : {A : Type ℓ} → String → Result A
not_found op_id = err ("operation not found: " <> op_id)

unfoldable get_operation : Manager → String → Result Operation
get_operation m op_id = elim (get m.operations op_id) [ none ↦ not_found op_id | some op ↦ ok op ]

abbrev selects : Option (Operation → Bool) → Operation → Bool
selects none op = true
selects (some p) op = p op

selected : Option (Operation → Bool) → Map Operation → List Operation
selected f [] = []
selected f ((k, op) ∷ rest) = let more = selected f rest in if selects f op then op ∷ more else more

-- `none` is the filter nil.
unfoldable list_operations : Manager → Option (Operation → Bool) → List Operation
unfolding selected
list_operations m f = selected f m.operations
